-- ===== src/Holiday/Names.antt =====
-- Words and the names that are made of them.
use madhatter.Base.{
  ℕ, ◌≡◌, refl, sym, ap, ◌∙◌, false, Bool-cases, List, [], ◌∷◌, ◌++◌, Text, All, All-append,
  trim_space, trim_space_solid, is_space, IsSolid, is_empty, inl, inr,
}
use mathlib.Core.List.{append_assoc, append-nil}
use madhatter.Holiday.Feed.{end_word, fields_from, space, join_words, sanitize_holiday_name}

-- A text of no spaces that is not empty.
abbrev pub IsWord : Text → Type 0
IsWord w = All IsSolid w × (is_empty w ≡ false)

end_word-IsWord :
    (word : Text) (ws : List Text)
    → All IsSolid word
    → All IsWord ws
    → All IsWord (end_word word ws)
end_word-IsWord [] ws h hs = hs
end_word-IsWord (c ∷ w) ws h hs = ((h, refl), hs)

pub fields_from-IsWord : (word s : Text) → All IsSolid word → All IsWord (fields_from word s)
unfolding fields_from
fields_from-IsWord word [] h = end_word-IsWord word [] h tt
fields_from-IsWord word (c ∷ s) h = elim (Bool-cases (is_space c)) [
  | inl blank ↦
      rw (blank, fields_from)
        (end_word-IsWord word (fields_from [] s) h (fields_from-IsWord [] s tt))
  | inr solid ↦
      rw (solid, fields_from)
        (fields_from-IsWord (word ++ c ∷ []) s (All-append IsSolid word (c ∷ []) h (solid, tt)))
]

fields_from_solid :
    (word w s : Text) → All IsSolid w → fields_from word (w ++ s) ≡ fields_from (word ++ w) s
unfolding fields_from
fields_from_solid word [] s h = ap (λ t. fields_from t s) (sym (append-nil word))
fields_from_solid word (c ∷ w) s h =
    rw (h.0, fields_from)
      (fields_from_solid (word ++ c ∷ []) w s h.1
        ∙ ap (λ t. fields_from t s) (append_assoc word (c ∷ []) w))

fields_from_word : (w : Text) → IsWord w → fields_from w [] ≡ w ∷ []
unfolding fields_from
fields_from_word [] h = absurd (cc (h.1))
fields_from_word (c ∷ w) h = refl

fields_from-space : (w s : Text) → IsWord w → fields_from w (space ∷ s) ≡ w ∷ fields_from [] s
unfolding fields_from is_space
fields_from-space [] s h = absurd (cc (h.1))
fields_from-space (c ∷ w) s h = refl

-- The words of a name are read back.
pub fields_from-join_words : (ws : List Text) → All IsWord ws → fields_from [] (join_words ws) ≡ ws
unfolding fields_from
fields_from-join_words [] h = refl
fields_from-join_words (w ∷ []) h =
    ap (fields_from []) (sym (append-nil w))
    ∙ fields_from_solid [] w [] h.0.0
    ∙ fields_from_word w h.0
fields_from-join_words (w ∷ v ∷ ws) h =
    fields_from_solid [] w (space ∷ join_words (v ∷ ws)) h.0.0
    ∙ fields_from-space w (join_words (v ∷ ws)) h.0
    ∙ ap (λ t. w ∷ t) (fields_from-join_words (v ∷ ws) h.1)

-- Where a name ends: in a word, with some text before it.
pub join_words_last :
    (ws : List Text) (w : Text)
    → All IsWord (w ∷ ws)
    → (x y : Text) × (join_words (w ∷ ws) ≡ x ++ y) × IsWord y
join_words_last [] w h = ([], w, refl, h.0)
join_words_last (v ∷ ws) w h =
    let (x, y, e, word) = join_words_last ws v h.1 in
    (w ++ (space ∷ x), y, ap (λ t. w ++ (space ∷ t)) e ∙ sym (append_assoc w (space ∷ x) y), word)

-- A text that ends in a word, behind one that starts with no space, is trimmed.
pub trim_space_word :
    (c : ℕ) (p x y : Text)
    → IsSolid c
    → IsWord y
    → trim_space ((c ∷ p) ++ (x ++ y)) ≡ (c ∷ p) ++ (x ++ y)
trim_space_word c p x y solid word =
    ap trim_space (sym (append_assoc (c ∷ p) x y))
    ∙ trim_space_solid c (p ++ x) y solid word.0 word.1
    ∙ append_assoc (c ∷ p) x y

pub trim_space-IsWord : (w : Text) → IsWord w → trim_space w ≡ w
unfolding trim_space
trim_space-IsWord [] h = refl
trim_space-IsWord (c ∷ []) h = rw (h.0.0, trim_space) (rw h.0.0 refl)
trim_space-IsWord (c ∷ d ∷ w) h = trim_space_solid c [] (d ∷ w) h.0.0 h.0.1 refl

pub trim_space-join_words :
    (ws : List Text) → All IsWord ws → trim_space (join_words ws) ≡ join_words ws
unfolding trim_space
trim_space-join_words [] h = refl
trim_space-join_words (w ∷ []) h = trim_space-IsWord w h.0
trim_space-join_words ([] ∷ v ∷ ws) h = absurd (cc (h.0.1))
trim_space-join_words ((c ∷ w) ∷ v ∷ ws) h =
    let (x, y, e, word) = join_words_last ws v h.1 in
    let same : join_words ((c ∷ w) ∷ v ∷ ws) ≡ (c ∷ w) ++ ((space ∷ x) ++ y) =
      ap (λ t. (c ∷ w) ++ (space ∷ t)) e in
    ap trim_space same ∙ trim_space_word c w (space ∷ x) y h.0.0.0 word ∙ sym same

-- What was cleaned up is clean: the words of a name are read back from it, and cleaning it up again
-- changes nothing.
pub sanitize-join_words :
    (ws : List Text) → All IsWord ws → sanitize_holiday_name (join_words ws) ≡ join_words ws
unfolding sanitize_holiday_name
sanitize-join_words ws h =
    ap (λ t. join_words (fields_from [] t)) (trim_space-join_words ws h)
    ∙ ap join_words (fields_from-join_words ws h)

pub sanitize-sanitize :
    (name : Text) → sanitize_holiday_name (sanitize_holiday_name name) ≡ sanitize_holiday_name name
unfolding sanitize_holiday_name
sanitize-sanitize name =
    sanitize-join_words (fields_from [] (trim_space name))
      (fields_from-IsWord [] (trim_space name) tt)
