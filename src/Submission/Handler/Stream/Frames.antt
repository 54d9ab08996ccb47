-- ===== src/Submission/Handler/Stream/Frames.antt =====
-- What an EventSource makes of the bytes that `Events` writes.
use mathlib.Core.List.{append_assoc}
use go_spoc.Prelude.{
  ℕ, ◌≡◌, refl, ◌∙◌, ap, List, [], ◌∷◌, ◌++◌, map, Option, none, some, All, codes, arith,
  if◌then◌else◌,
}
use go_spoc.Events.{Event}
use go_spoc.Strings.{split, has_prefix}
use go_spoc.Strings.Lines.{Free, split-append}
use go_spoc.Submission.Handler.Stream.{body}

abbrev pub line_feed : ℕ
line_feed = 10

abbrev behind_prefix : List ℕ → List ℕ → List ℕ
behind_prefix [] s = s
behind_prefix (p ∷ ps) [] = []
behind_prefix (p ∷ ps) (c ∷ s) = behind_prefix ps s

-- The value of a line `data: value`.
abbrev data_of : List ℕ → Option (List ℕ)
data_of line =
    if has_prefix (codes "data: ") line then some (behind_prefix (codes "data: ") line) else none

-- Values of several lines are joined by a line feed.
abbrev with_line : Option (List ℕ) → Option (List ℕ) → Option (List ℕ)
with_line none value = value
with_line (some b) none = some b
with_line (some b) (some v) = some (b ++ line_feed ∷ v)

-- The messages of a row of lines, behind what is read of the first one: an empty line ends a
-- message, and what no such line ends is dropped.
unfoldable pub messages : Option (List ℕ) → List (List ℕ) → List (List ℕ)
unfolding has_prefix
messages b [] = []
messages none ([] ∷ lines) = messages none lines
messages (some b) ([] ∷ lines) = b ∷ messages none lines
messages b ((c ∷ l) ∷ lines) = messages (with_line b (data_of (c ∷ l))) lines

module _ (marshal : Event → List ℕ) where
  split-body :
      (e : Event) (es : List Event)
      → Free line_feed (marshal e)
      → split line_feed (body marshal (e ∷ es))
        ≡ (codes "data: " ++ marshal e) ∷ [] ∷ split line_feed (body marshal es)
  unfolding body
  split-body e es h =
      ap (λ s. split line_feed (codes "data: " ++ s))
        (append_assoc (marshal e) (codes "\n\n") (body marshal es))
      ∙ split-append line_feed (codes "data: " ++ marshal e) (line_feed ∷ body marshal es) (
        omega arith,
        (omega arith, (omega arith, (omega arith, (omega arith, (omega arith, h))))),
      )
      ∙ ap (λ ls. (codes "data: " ++ marshal e) ∷ ls)
          (split-append line_feed [] (body marshal es) tt)

  -- A reader of the event stream gets one message for each event, in their order, and each is the
  -- event's JSON, if no such text holds a line feed.
  pub messages-body :
      (es : List Event)
      → All (λ e. Free line_feed (marshal e)) es
      → messages none (split line_feed (body marshal es)) ≡ map marshal es
  unfolding messages body split
  messages-body [] h = refl
  messages-body (e ∷ es) h =
      ap (messages none) (split-body e es h.0) ∙ ap (λ ms. marshal e ∷ ms) (messages-body es h.1)
