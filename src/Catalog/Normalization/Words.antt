-- ===== src/Catalog/Normalization/Words.antt =====
-- The shape of normal forms.
use wildman_service.Base.{
  ◌≡◌, refl, Bool, true, false, ◌&&◌, [], ◌∷◌, arith, if◌then◌else◌, int_eq, ◌==◌, nat_eq,
  string_eq, list_eq, Text, trim_space,
}
use wildman_service.Unicode.{Unicode, to_lower}
use wildman_service.Catalog.Normalization.{is_word, write_words, normalize_text}

begins_word : Unicode → Text → Bool
begins_word u [] = false
begins_word u (c ∷ s) = is_word u c

-- Words of letters and digits with one space between two words, and no other characters; `gap` tells
-- whether a space may come first.
pub well_spaced : Unicode → Bool → Text → Bool
unfolding begins_word
well_spaced u gap [] = true
well_spaced u gap (c ∷ s) =
    let next = well_spaced u true s in
    let spaced = well_spaced u false s in
    if is_word u c then next else gap && c == b' ' && begins_word u s && spaced

write_words-well_spaced :
    (u : Unicode) (pending written : Bool) (s : Text)
    → well_spaced u written (write_words u pending written s) ≡ true
unfolding write_words well_spaced begins_word
write_words-well_spaced u pending written [] = refl
write_words-well_spaced u pending written (c ∷ s) =
    let word = write_words-well_spaced u false true s in
    let gap = write_words-well_spaced u (if written then true else pending) written s in
    ground (arith, word, gap)

-- A normal form has letters and digits only, in words with one space between them.
pub normalize_text-well_spaced :
    (u : Unicode) (value : Text) → well_spaced u false (normalize_text u value) ≡ true
unfolding normalize_text
normalize_text-well_spaced u value =
    write_words-well_spaced u false false (to_lower u (trim_space value))
