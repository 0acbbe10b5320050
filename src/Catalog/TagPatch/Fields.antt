-- ===== src/Catalog/TagPatch/Fields.antt =====
-- Which fields a patch changes.
use wildman_service.Base.{
  ℕ, String, ◌≡◌, refl, ap, subst, ◌∙◌, Bool, true, false, not, Option, none, some, List, [], ◌∷◌,
  ◌++◌, if◌then◌else◌, ℤ, int_eq, ◌==◌, nat_eq, string_eq, list_eq, Text,
}
use wildman_service.Unicode.{Unicode}
use wildman_service.Catalog.{TrackObservation, Release, Track, TagPatchOperation, Candidate}
use wildman_service.Catalog.TagPatch.{
  text_patch, number_patch, artists_patch, names_of, differs, artists_differ, number_differs,
  optional, album_patch, position_patch, generate_tag_patch,
}

abbrev of_field : String → TagPatchOperation → Bool
of_field field op = op.field == field

abbrev count_if : Bool → ℕ
count_if b = if b then 1 else 0

abbrev album_wanted : Unicode → Text → Option Release → Bool
album_wanted u current none = false
album_wanted u current (some r) = differs u current r.title

abbrev disc_wanted : Option ℤ → Option Track → Bool
disc_wanted current none = false
disc_wanted current (some t) = number_differs current t.disc_number

abbrev track_wanted : Option ℤ → Option Track → Bool
track_wanted current none = false
track_wanted current (some t) = number_differs current t.track_number

abbrev named : Bool → String → List String
named b s = if b then s ∷ [] else []

-- The fields of a patch, in order, from which of them are wanted.
abbrev pub wanted_fields : Bool → Bool → Bool → Bool → Bool → Bool → List String
wanted_fields title artists album disc track isrc =
    named title "title"
    ++ named artists "artists"
    ++ named album "album"
    ++ (named disc "discNumber" ++ named track "trackNumber")
    ++ named isrc "isrc"

abbrev pub fields : List TagPatchOperation → List String
fields [] = []
fields (op ∷ ops) = op.field ∷ fields ops

fields-append :
    (a b : List TagPatchOperation) (x y : List String)
    → fields a ≡ x
    → fields b ≡ y
    → fields (a ++ b) ≡ x ++ y
fields-append [] b x y h k = subst (λ l. fields b ≡ l ++ y) h k
fields-append (op ∷ a) b x y h k =
    ap (λ l. op.field ∷ l) (fields-append a b (fields a) y refl k) ∙ ap (λ l. l ++ y) h

fields-optional : (b : Bool) (op : TagPatchOperation) → fields (optional b op) ≡ named b op.field
unfolding optional
fields-optional true op = refl
fields-optional false op = refl

fields-album :
    (u : Unicode) (current : Text) (r : Option Release) (source : String)
    → fields (album_patch u current r source) ≡ named (album_wanted u current r) "album"
unfolding album_patch text_patch
fields-album u current none source = refl
fields-album u current (some r) source =
    fields-optional (differs u current r.title) (text_patch "album" current r.title source)

fields-position :
    (o : TrackObservation) (t : Option Track) (source : String)
    → fields (position_patch o t source)
      ≡ named (disc_wanted o.disc_number t) "discNumber"
        ++ named (track_wanted o.track_number t) "trackNumber"
unfolding position_patch number_patch
fields-position o none source = refl
fields-position o (some t) source =
    fields-append (optional _ _) (optional _ _) _ _
      (fields-optional (number_differs o.disc_number t.disc_number)
        (number_patch "discNumber" o.disc_number t.disc_number source))
      (fields-optional (number_differs o.track_number t.track_number)
        (number_patch "trackNumber" o.track_number t.track_number source))

-- A patch changes the title, the artists and the album where their normal forms differ from those that
-- are known, the numbers where they are missing or differ, and adds a known ISRC: each once, and in
-- this order.
pub generate_tag_patch-fields :
    {Num : Type 0} (u : Unicode) (o : TrackObservation) (c : Candidate Num) (track : Option Track)
    → fields (generate_tag_patch u o c track)
      ≡ wanted_fields
          (differs u o.title c.recording.title)
          (artists_differ u o.artists c.recording.artists)
          (album_wanted u o.album c.release)
          (disc_wanted o.disc_number track)
          (track_wanted o.track_number track)
          (not (c.recording.isrc == []))
unfolding generate_tag_patch text_patch artists_patch
generate_tag_patch-fields u o c track =
    fields-append _ _ _ _
      (fields-append _ _ _ _
        (fields-append _ _ _ _
          (fields-append _ _ _ _
            (fields-optional (differs u o.title c.recording.title)
              (text_patch "title" o.title c.recording.title c.source))
            (fields-optional (artists_differ u o.artists c.recording.artists)
              (artists_patch o.artists (names_of c.recording.artists) c.source)))
          (fields-album u o.album c.release c.source))
        (fields-position o track c.source))
      (fields-optional (not (c.recording.isrc == []))
        (text_patch "isrc" [] c.recording.isrc c.source))
