-- ===== src/Catalog/Laws.antt =====
-- What the services of brands, categories and tags keep to, for any of the three.
use nest_microservices_tempo.Prelude.{
  ℕ, String, ◌≡◌, refl, true, false, none, some, List, [], ◌∷◌, ◌++◌, ==-self, find?, any, arith,
  Bool-cases, inl, inr,
}
use nest_microservices_tempo.Errors.{Exception, ok, err}
use nest_microservices_tempo.Catalog.{
  Kind, is_live, create_row, get_row, delete_row, soft_delete, brand, category, tag,
}

module _ {Row Create Update : Type 0} (kind : Kind Row Create Update) where
  -- What the operations on rows of a kind leave alone.
  pub record IsKind : Type 0 where
    pub new_id : (k : ℕ) (slug : String) (dto : Create) → kind.id (kind.row_of k slug dto) ≡ k
    pub new_live :
        (k : ℕ) (slug : String) (dto : Create) → kind.is_deleted (kind.row_of k slug dto) ≡ false
    pub set_id : (dto : Update) (r : Row) → kind.id (kind.set dto r) ≡ kind.id r
    pub set_live : (dto : Update) (r : Row) → kind.is_deleted (kind.set dto r) ≡ kind.is_deleted r
    pub mark_deleted : (r : Row) → kind.is_deleted (kind.mark r) ≡ true

  module _ (law : IsKind) where
    found_new :
        (k : ℕ) (t : List Row) (r : Row)
        → find? (is_live kind k) t ≡ none
        → is_live kind k r ≡ true
        → find? (is_live kind k) (t ++ r ∷ []) ≡ some r
    found_new k [] r h e = rw e refl
    found_new k (q ∷ t) r h e = ground (arith, found_new k t r)

    none_live : (k : ℕ) (t : List Row) → find? (is_live kind k) (soft_delete kind k t) ≡ none
    none_live k [] = refl
    none_live k (r ∷ t) = elim (Bool-cases (is_live kind k r)) [
      | inl e ↦ rw e (rw (law.mark_deleted r) (none_live k t))
      | inr e ↦ rw e (rw e (none_live k t))
    ]

    stored :
        (k : ℕ) (slug : String) (dto : Create) (t : List Row)
        → find? (is_live kind k) t ≡ none
        → find? (is_live kind k) (t ++ kind.row_of k slug dto ∷ []) ≡ some (kind.row_of k slug dto)
    stored k slug dto t new =
        found_new k t (kind.row_of k slug dto) new
          (rw (law.new_live k slug dto, law.new_id k slug dto) (==-self k))

    delete_found :
        (k : ℕ) (t : List Row) (r : Row)
        → get_row kind k t ≡ ok r
        → delete_row kind k t ≡ (ok tt, soft_delete kind (kind.id r) t)
    unfolding delete_row
    delete_found k t r h = rw (h, delete_row) refl

    delete_missing :
        (k : ℕ) (t : List Row) (e : Exception)
        → get_row kind k t ≡ err e
        → delete_row kind k t ≡ (err e, t)
    unfolding delete_row
    delete_missing k t e h = rw (h, delete_row) refl

    get_none :
        (k : ℕ) (t : List Row)
        → find? (is_live kind k) t ≡ none
        → get_row kind k t ≡ err (kind.failure k)
    unfolding get_row
    get_none k t h = rw h refl

    get_some :
        (k : ℕ) (t : List Row) (r : Row)
        → find? (is_live kind k) t ≡ some r
        → get_row kind k t ≡ ok r
    unfolding get_row
    get_some k t r h = rw h refl

    -- A row that is created under a new id, and is not refused, is returned, and can be read under that
    -- id; deleting it then goes through, and afterwards it can neither be read nor deleted again.
    pub delete_row-create_row :
        (k : ℕ) (slug : String) (dto : Create) (t : List Row)
        → find? (is_live kind k) t ≡ none
        → any (kind.clashes (kind.row_of k slug dto)) t ≡ false
        → let (made, t') = create_row kind k slug dto t in
          let (done, t'') = delete_row kind k t' in
          (made ≡ ok (kind.row_of k slug dto))
          × (get_row kind k t' ≡ ok (kind.row_of k slug dto))
          × (done ≡ ok tt)
          × (get_row kind k t'' ≡ err (kind.failure k))
          × (delete_row kind k t'' ≡ (err (kind.failure k), t''))
    unfolding create_row
    delete_row-create_row k slug dto t new free =
        let t' = t ++ kind.row_of k slug dto ∷ [] in
        let read = get_some k t' (kind.row_of k slug dto) (stored k slug dto t new) in
        let deletes : delete_row kind k t' ≡ (ok tt, soft_delete kind k t') =
          rw (law.new_id k slug dto) at (delete_found k t' (kind.row_of k slug dto) read) in
        let gone = get_none k (soft_delete kind k t') (none_live k t') in
        rw (free, deletes)
          (refl, read, refl, gone, delete_missing k (soft_delete kind k t') (kind.failure k) gone)

pub brand-IsKind : IsKind brand
brand-IsKind = record {
  new_id = λ k s d. refl;
  new_live = λ k s d. refl;
  set_id = λ d r. refl;
  set_live = λ d r. refl;
  mark_deleted = λ r. refl;
}

pub category-IsKind : IsKind category
category-IsKind = record {
  new_id = λ k s d. refl;
  new_live = λ k s d. refl;
  set_id = λ d r. refl;
  set_live = λ d r. refl;
  mark_deleted = λ r. refl;
}

pub tag-IsKind : IsKind tag
tag-IsKind = record {
  new_id = λ k s d. refl;
  new_live = λ k s d. refl;
  set_id = λ d r. refl;
  set_live = λ d r. refl;
  mark_deleted = λ r. refl;
}
