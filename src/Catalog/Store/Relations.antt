-- ===== src/Catalog/Store/Relations.antt =====
-- The relation of an entity to its artists in internal/infra/database/catalog_store.go: what the loop of
-- replaceReleaseArtists and replaceRecordingArtists inserts, and what relatedArtists reads of it.
use wildman_service.Base.{
  ℕ, ◌+◌, ◌<◌, String, ◌≡◌, refl, sym, ap, ◌∙◌, ◌≢◌, inl, inr, Bool, true, false, not, ◌&&◌, some,
  List, [], ◌∷◌, ◌++◌, arith, eq_iff, Bool-cases, Option-cases, All, All-append, first_where,
  exists_where, delete_where, exists-first_where, int_eq, string_eq, nat_eq, ◌==◌, eq_self, list_eq,
  select_where, IsInOrder, order_by-IsInOrder, append_assoc, append_nil, select_where-append,
  select_where-delete_where, select-delete_where,
}
use wildman_service.Catalog.{Artist}
use wildman_service.Catalog.Rows.{RelationRow, Tables}
use wildman_service.Catalog.Store.{
  clashes, insert_relations, replace_artists, get_artist, join_artists, later_position,
  related_artists,
}

abbrev pub has_id : String → Artist → Bool
has_id id a = a.id == id

-- No artist stands twice in the list.
abbrev pub AreDistinct : List Artist → Type 0
AreDistinct [] = Unit
AreDistinct (a ∷ more) = (exists_where (has_id a.id) more ≡ false) × AreDistinct more

-- The table of artists has each artist of the list, as it stands in the list.
abbrev pub AreKnown : Tables → List Artist → Type 0
AreKnown t artists = All (λ a. get_artist t a.id ≡ some a) artists

-- The rows of an entity, from a position on.
unfoldable pub relations : String → ℕ → List Artist → List RelationRow
relations entity_id position [] = []
relations entity_id position (a ∷ more) =
    record { entity_id = entity_id; artist_id = a.id; position = position }
    ∷ relations entity_id (position + 1) more

abbrev pub is_of : String → RelationRow → Bool
is_of entity_id r = r.entity_id == entity_id

-- The rows of the entity are before a position, and of other artists.
abbrev IsFree : String → ℕ → List Artist → RelationRow → Type 0
IsFree entity_id position artists r =
    is_of entity_id r ≡ true
    → (r.position < position) × (exists_where (has_id r.artist_id) artists ≡ false)

known_exists :
    (t : Tables) (a : Artist)
    → get_artist t a.id ≡ some a
    → exists_where (λ r. r.id == a.id) t.artists ≡ true
unfolding get_artist
known_exists t a h = elim (Option-cases (first_where (λ r. r.id == a.id) t.artists)) [
  | inl absent ↦ cc (rw absent at h)
  | inr (row, found) ↦ exists-first_where (λ r. r.id == a.id) t.artists row found
]

module _ (t : Tables) (entity_id : String) where
  no_clash :
      (position : ℕ) (a : Artist) (more : List Artist) (rows : List RelationRow)
      → All (IsFree entity_id position (a ∷ more)) rows
      → exists_where (clashes entity_id a.id position) rows ≡ false
  unfolding exists_where clashes
  no_clash position a more [] free = refl
  no_clash position a more (r ∷ rows) free = ground (
    arith,
    no_clash position a more rows free.1,
    free.0,
    eq_iff a.id r.artist_id,
    eq_iff r.artist_id a.id,
  )

  still-IsFree :
      (position : ℕ) (a : Artist) (more : List Artist) (rows : List RelationRow)
      → All (IsFree entity_id position (a ∷ more)) rows
      → All (IsFree entity_id (position + 1) more) rows
  unfolding exists_where
  still-IsFree position a more [] free = tt
  still-IsFree position a more (r ∷ rows) free =
      (λ h. ground (arith, free.0 h), still-IsFree position a more rows free.1)

  pub insert_relations_lem :
      (position : ℕ) (artists : List Artist) (rows : List RelationRow)
      → AreKnown t artists
      → AreDistinct artists
      → All (IsFree entity_id position artists) rows
      → insert_relations t.artists entity_id position artists rows
        ≡ some (rows ++ relations entity_id position artists)
  unfolding insert_relations relations
  insert_relations_lem position [] rows known distinct free = ap some (append_nil rows)
  insert_relations_lem position (a ∷ more) rows known distinct free =
      let b : RelationRow = record {
        entity_id = entity_id;
        artist_id = a.id;
        position = position;
      } in
      let fresh : IsFree entity_id (position + 1) more b = λ h. (omega arith, distinct.0) in
      let free' : All (IsFree entity_id (position + 1) more) (rows ++ (b ∷ [])) =
        All-append (IsFree entity_id (position + 1) more) rows (b ∷ [])
          (still-IsFree position a more rows free) (fresh, tt) in
      rw (known_exists t a known.0, no_clash position a more rows free)
        (insert_relations_lem (position + 1) more (rows ++ (b ∷ [])) known.1 distinct.1 free'
          ∙ ap some (append_assoc rows b (relations entity_id (position + 1) more)))

  delete_where-IsFree :
      (artists : List Artist) (rows : List RelationRow)
      → All (IsFree entity_id 0 artists) (delete_where (is_of entity_id) rows)
  unfolding delete_where
  delete_where-IsFree artists [] = tt
  delete_where-IsFree artists (r ∷ rows) = elim (Bool-cases (is_of entity_id r)) [
    | inl hit ↦ rw hit (delete_where-IsFree artists rows)
    | inr miss ↦ rw miss ((λ h. cc (miss, h)), delete_where-IsFree artists rows)
  ]

  -- Artists that the table knows, each once, replace those that the entity had.
  pub replace_artists_lem :
      (artists : List Artist) (rows : List RelationRow)
      → AreKnown t artists
      → AreDistinct artists
      → replace_artists t.artists entity_id artists rows
        ≡ some (delete_where (is_of entity_id) rows ++ relations entity_id 0 artists)
  unfolding replace_artists
  replace_artists_lem artists rows known distinct =
      insert_relations_lem 0 artists (delete_where (is_of entity_id) rows) known distinct
        (delete_where-IsFree artists rows)

  relations-IsInOrder :
      (n : ℕ) (artists : List Artist) → IsInOrder later_position (relations entity_id n artists)
  unfolding relations later_position
  relations-IsInOrder n [] = tt
  relations-IsInOrder n (a ∷ []) = tt
  relations-IsInOrder n (a ∷ b ∷ more) = (ground arith, relations-IsInOrder (n + 1) (b ∷ more))

  select-relations :
      (n : ℕ) (artists : List Artist)
      → select_where (is_of entity_id) (relations entity_id n artists)
        ≡ relations entity_id n artists
  unfolding relations select_where
  select-relations n [] = refl
  select-relations n (a ∷ more) = rw (eq_self entity_id) (rw (select-relations (n + 1) more) refl)

  join-relations :
      (n : ℕ) (artists : List Artist)
      → AreKnown t artists
      → join_artists t (relations entity_id n artists) ≡ artists
  unfolding relations join_artists
  join-relations n [] known = refl
  join-relations n (a ∷ more) known =
      rw (join_artists, known.0) (ap (λ artists. a ∷ artists) (join-relations (n + 1) more known.1))

  -- The artists that were inserted are read in their order.
  pub related_artists-relations :
      (artists : List Artist) (rows : List RelationRow)
      → AreKnown t artists
      → related_artists t entity_id
          (delete_where (is_of entity_id) rows ++ relations entity_id 0 artists)
        ≡ artists
  unfolding related_artists
  related_artists-relations artists rows known =
      rw
        (
          select_where-append (is_of entity_id) (delete_where (is_of entity_id) rows)
              (relations entity_id 0 artists),
          select-delete_where (is_of entity_id) (is_of entity_id) rows (λ r h. h),
          select-relations 0 artists,
          order_by-IsInOrder later_position (relations entity_id 0 artists)
              (relations-IsInOrder 0 artists),
        )
        (join-relations 0 artists known)

  -- The rows that the loop leaves where it succeeds.
  insert_relations-some :
      (position : ℕ) (artists : List Artist) (rows after : List RelationRow)
      → insert_relations t.artists entity_id position artists rows ≡ some after
      → after ≡ rows ++ relations entity_id position artists
  unfolding insert_relations relations
  insert_relations-some position [] rows after h = ground (arith, h, append_nil rows)
  insert_relations-some position (a ∷ more) rows after h =
      let b : RelationRow = record {
        entity_id = entity_id;
        artist_id = a.id;
        position = position;
      } in
      elim (Bool-cases (
        exists_where (λ r. r.id == a.id) t.artists
        && not (exists_where (clashes entity_id a.id position) rows))) [
          | inr refused ↦ absurd (ground (arith, h, refused))
          | inl taken ↦
              insert_relations-some (position + 1) more (rows ++ (b ∷ [])) after (rw taken at h)
              ∙ append_assoc rows b (relations entity_id (position + 1) more)
        ]

  module _ (other : String) (apart : other ≢ entity_id) where
    other_row : (r : RelationRow) → is_of other r ≡ true → is_of entity_id r ≡ false
    other_row r h = ground (arith, eq_iff r.entity_id other, eq_iff r.entity_id entity_id, h, apart)

    select-relations_other :
        (n : ℕ) (artists : List Artist)
        → select_where (is_of other) (relations entity_id n artists) ≡ []
    unfolding relations select_where
    select-relations_other n [] = refl
    select-relations_other n (a ∷ more) =
        let differ : (entity_id == other) ≡ false = ground (arith, eq_iff entity_id other, apart) in
        rw differ (select-relations_other (n + 1) more)

    -- The rows of another entity are those that it had.
    pub replace_artists-others :
        (artists : List Artist) (rows after : List RelationRow)
        → replace_artists t.artists entity_id artists rows ≡ some after
        → select_where (is_of other) after ≡ select_where (is_of other) rows
    unfolding replace_artists
    replace_artists-others artists rows after h =
        let kept = delete_where (is_of entity_id) rows in
        let e = insert_relations-some 0 artists kept after h in
        rw
          (
            e,
            select_where-append (is_of other) kept (relations entity_id 0 artists),
            select-relations_other 0 artists,
            sym (append_nil (select_where (is_of other) kept)),
          )
          (select_where-delete_where (is_of other) (is_of entity_id) rows other_row)
