-- ===== src/Effects/Entries/Changes.antt =====
-- What an entry of crates/sniff-engine/src/effects.rs says of a changed element.
use sniff_css.Json.Floats.{Floats}
