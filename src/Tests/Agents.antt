-- ===== src/Tests/Agents.antt =====
-- The managed block in AGENTS.md.
use sniff_css.Prelude.{◌≡◌, refl, ◌↔◌, String, none, some}
use sniff_css.Agents.{marker_begin, marker_end, upsert, version_in, protocol_block}
use sniff_css.Agents.Tidy.{tidy}
use sniff_css.Agents.Tidy.Fixed.{IsTidy, tidy-IsTidy_iff}

abbrev outdated : String
outdated = "before\n<!-- sniff:start -->\nold\n<!-- sniff:end -->\nafter\n"

upsert_replaces : upsert outdated marker_begin marker_end (some "new\n") ≡ "before\nnew\nafter\n"
unfolding upsert
upsert_replaces = refl

upsert_inserts : upsert "user = 1" marker_begin marker_end (some "new\n") ≡ "user = 1\n\nnew\n"
unfolding upsert
upsert_inserts = refl

-- blank lines outside of the block are lost, and so is what stands behind a marker without an end
upsert_elsewhere :
    upsert "a\n\n\n\nb\n<!-- sniff:start -->\nc" marker_begin marker_end none ≡ "a\n\nb\n"
unfolding upsert
upsert_elsewhere = refl

block_version : version_in protocol_block ≡ some 1
unfolding version_in
block_version = refl

tidy-IsTidy_iff_example : (tidy "a\n\n\n\nb\n\n" ≡ "a\n\n\n\nb\n\n") ↔ IsTidy "a\n\n\n\nb\n\n"
tidy-IsTidy_iff_example = tidy-IsTidy_iff "a\n\n\n\nb\n\n"
