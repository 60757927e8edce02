-- ===== src/Output/Tables.antt =====
-- The tables of crates/sniff-engine/src/output.rs.
use sniff_css.Prelude.{String, List, [], ◌∷◌}

-- `SLIM_PROPS`
abbrev pub slim_props : List String
slim_props =
    "display" ∷ "position" ∷ "z-index" ∷ "flex-direction" ∷ "flex-wrap" ∷ "gap" ∷ "align-items"
    ∷ "justify-content" ∷ "width" ∷ "height" ∷ "min-width" ∷ "min-height" ∷ "max-width"
    ∷ "max-height" ∷ "padding" ∷ "padding-top" ∷ "padding-bottom" ∷ "margin" ∷ "border-radius"
    ∷ "box-sizing" ∷ "overflow-x" ∷ "overflow-y" ∷ "font-family" ∷ "font-size" ∷ "font-weight"
    ∷ "font-style" ∷ "line-height" ∷ "text-align" ∷ "color" ∷ "background-color" ∷ "opacity"
    ∷ "visibility" ∷ "transform" ∷ "transform-origin" ∷ "cursor" ∷ "pointer-events"
    ∷ "animation-name" ∷ "animation-duration" ∷ "transition-property" ∷ "transition-duration" ∷ []

-- `KEEP_DEFAULTS`
abbrev pub keep_defaults : List String
keep_defaults =
    "display" ∷ "position" ∷ "z-index" ∷ "opacity" ∷ "visibility" ∷ "box-sizing" ∷ "float" ∷ "clear"
    ∷ "cursor" ∷ "pointer-events" ∷ "user-select" ∷ "font-family" ∷ "font-size" ∷ "font-weight"
    ∷ "font-style" ∷ "line-height" ∷ "letter-spacing" ∷ "word-spacing" ∷ "text-align"
    ∷ "text-decoration-line" ∷ "color" ∷ "width" ∷ "height" ∷ "min-width" ∷ "max-width"
    ∷ "min-height" ∷ "max-height" ∷ "block-size" ∷ "inline-size" ∷ "min-block-size"
    ∷ "max-block-size" ∷ "min-inline-size" ∷ "max-inline-size" ∷ "aspect-ratio" ∷ "content"
    ∷ "writing-mode" ∷ "direction" ∷ "isolation" ∷ "mix-blend-mode" ∷ "accent-color"
    ∷ "color-scheme" ∷ "flex-grow" ∷ "flex-shrink" ∷ "flex-basis" ∷ "transform" ∷ "transform-origin"
    ∷ "perspective" ∷ "backface-visibility" ∷ "filter" ∷ "backdrop-filter" ∷ "clip-path"
    ∷ "box-shadow" ∷ "background-color" ∷ "background-image" ∷ "border-top-color"
    ∷ "border-right-color" ∷ "border-bottom-color" ∷ "border-left-color" ∷ "outline-color"
    ∷ "caret-color" ∷ "gap" ∷ "row-gap" ∷ "column-gap" ∷ "grid-template-columns"
    ∷ "grid-template-rows" ∷ "grid-auto-rows" ∷ "grid-auto-columns" ∷ "grid-column-start"
    ∷ "grid-column-end" ∷ "grid-row-start" ∷ "grid-row-end" ∷ "object-fit" ∷ "object-position"
    ∷ "white-space" ∷ "overflow-x" ∷ "overflow-y" ∷ "word-break" ∷ "overflow-wrap" ∷ "hyphens"
    ∷ "scroll-behavior" ∷ "scroll-snap-type" ∷ "touch-action" ∷ "animation-name"
    ∷ "animation-duration" ∷ "animation-timing-function" ∷ "animation-delay"
    ∷ "animation-iteration-count" ∷ "transition-property" ∷ "transition-duration"
    ∷ "transition-timing-function" ∷ "transition-delay" ∷ []

-- the values of `is_noise_value`
abbrev pub noise_values : List String
noise_values =
    "" ∷ "0px" ∷ "0s" ∷ "0%" ∷ "0deg" ∷ "0" ∷ "none" ∷ "normal" ∷ "auto" ∷ "100%" ∷ "visible"
    ∷ "scroll" ∷ "repeat" ∷ "add" ∷ "stretch" ∷ "ease" ∷ "balance" ∷ "slice" ∷ "clip" ∷ []

-- `MAP` and `BORDER` of `physical_equivalent`
abbrev pub physical_names : List (String × String)
physical_names =
    ("margin-block-start", "margin-top")
    ∷ ("margin-block-end", "margin-bottom")
    ∷ ("margin-inline-start", "margin-left")
    ∷ ("margin-inline-end", "margin-right")
    ∷ ("padding-block-start", "padding-top")
    ∷ ("padding-block-end", "padding-bottom")
    ∷ ("padding-inline-start", "padding-left")
    ∷ ("padding-inline-end", "padding-right")
    ∷ ("block-size", "height")
    ∷ ("inline-size", "width")
    ∷ ("min-block-size", "min-height")
    ∷ ("max-block-size", "max-height")
    ∷ ("min-inline-size", "min-width")
    ∷ ("max-inline-size", "max-width")
    ∷ ("overflow-block", "overflow-y")
    ∷ ("overflow-inline", "overflow-x")
    ∷ ("inset-block-start", "top")
    ∷ ("inset-block-end", "bottom")
    ∷ ("inset-inline-start", "left")
    ∷ ("inset-inline-end", "right")
    ∷ ("scroll-margin-block-start", "scroll-margin-top")
    ∷ ("scroll-margin-block-end", "scroll-margin-bottom")
    ∷ ("scroll-margin-inline-start", "scroll-margin-left")
    ∷ ("scroll-margin-inline-end", "scroll-margin-right")
    ∷ ("scroll-padding-block-start", "scroll-padding-top")
    ∷ ("scroll-padding-block-end", "scroll-padding-bottom")
    ∷ ("scroll-padding-inline-start", "scroll-padding-left")
    ∷ ("scroll-padding-inline-end", "scroll-padding-right")
    ∷ ("overscroll-behavior-block", "overscroll-behavior-y")
    ∷ ("overscroll-behavior-inline", "overscroll-behavior-x")
    ∷ ("grid-column-gap", "column-gap")
    ∷ ("grid-row-gap", "row-gap")
    ∷ []

abbrev pub border_prefixes : List (String × String)
border_prefixes =
    ("border-block-start-", "border-top-")
    ∷ ("border-block-end-", "border-bottom-")
    ∷ ("border-inline-start-", "border-left-")
    ∷ ("border-inline-end-", "border-right-")
    ∷ []
