-- ===== src/Tests/Naming.antt =====
-- Names of snapshots.
use sniff_css.Prelude.{◌+◌, ◌≡◌, ◌≤◌, refl, true}
use sniff_css.Naming.Dates.{civil_from_days, utc_at}
use sniff_css.Naming.Dates.Calendar.{IsDate, ordinal, civil_from_days-ordinal}
use sniff_css.Naming.Slugs.{slug, domain_of, path_of, snapshot_file_name_at}
use sniff_css.Naming.Slugs.Safe.{all_safe, starts_plain, char_count, slug-IsSafe}
use sniff_css.Naming.Slugs.Domains.{IsComponent, domain_of-IsComponent}

utc_at-leap_day : utc_at 1709210096 ≡ "20240229T123456Z"
unfolding utc_at
utc_at-leap_day = refl

civil_from_days-ordinal_example :
    IsDate (civil_from_days 19782) × (ordinal (civil_from_days 19782) ≡ 19782 + 719528)
civil_from_days-ordinal_example = civil_from_days-ordinal 19782

-- what is cut off may end the name behind a separator
slug-cut : slug "main > a.b" 5 ≡ "main_"
unfolding slug
slug-cut = refl

slug-IsSafe_example :
    (all_safe (slug "../main > a" 40) ≡ true)
    × (starts_plain (slug "../main > a" 40) ≡ true)
    × (char_count (slug "../main > a" 40) ≤ 40)
slug-IsSafe_example = slug-IsSafe "../main > a" 40

domain-lower : domain_of "https://me@Example.com:8080/a?b#c" ≡ "example.com_8080"
unfolding domain_of
domain-lower = refl

path-index : path_of "https://example.com/?q" ≡ "index"
unfolding path_of
path-index = refl

file_name :
    snapshot_file_name_at "https://a.b/docs/intro" "main" "jsonl" "20240229T123456Z"
    ≡ "20240229T123456Z-docs_intro-main.jsonl"
unfolding snapshot_file_name_at
file_name = refl

domain_of-IsComponent_example : IsComponent (domain_of "https://../x")
domain_of-IsComponent_example = domain_of-IsComponent "https://../x"
