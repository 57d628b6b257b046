-- ===== src/Catalog.antt =====
-- apps/product-service/src/modules: the brands (product-brand), the categories (product-category) and
-- the tags (product-tag), each with its entity and its service. The three services are one, over what
-- the entity and its columns are: that is `Kind`. A new row's id is an argument; the slug is computed
-- from the name by a package, and has random digits at its end, so it is an argument too. TypeORM's
-- `find` and `softDelete` leave out the rows that are marked as deleted; its `update` does not, and
-- it runs no listener of the entity: the slug stays as it is.
pub mod Laws
mod Tests
use nest_microservices_tempo.Prelude.{
  ℕ, String, Bool, true, false, not, ◌&&◌, ◌||◌, Option, none, some, List, [], ◌∷◌, ◌++◌, ◌==◌,
  if◌then◌else◌, find?, any, keep, map,
}
use text.Mathlib.Text.{◌==◌ as str_eq}
use nest_microservices_tempo.Errors.{
  Message, Exception, Result, ok, err, or_throw, AppErrorCode, ProductErrorCode,
  not_found_exception,
}
use nest_microservices_tempo.Store.{affected, update_rows}

pub record Kind (Row Create Update : Type 0) : Type 0 where
  pub id : Row → ℕ
  pub is_deleted : Row → Bool
  pub row_of : ℕ → (slug : String) → Create → Row
  pub update_id : Update → ℕ
  pub set : Update → Row → Row
  pub mark : Row → Row
  -- Two rows with the same value in a column that is unique.
  pub clashes : Row → Row → Bool
  pub failure : ℕ → Exception

abbrev pub database_error : Exception
database_error = Exception.error (Message.text "database error")

module _ {Row Create Update : Type 0} (kind : Kind Row Create Update) where
  open kind use {id, is_deleted, row_of, update_id, set, mark, clashes, failure}

  abbrev pub is_live : ℕ → Row → Bool
  is_live k r = not (is_deleted r) && id r == k

  unfoldable pub create_row :
      (new_id : ℕ) (slug : String) → Create → List Row → Result Row × List Row
  create_row k slug dto t =
      if any (clashes (row_of k slug dto)) t
      then (err database_error, t)
      else (ok (row_of k slug dto), t ++ row_of k slug dto ∷ [])

  unfoldable pub get_rows : List Row → List Row
  get_rows t = keep (λ r. not (is_deleted r)) t

  unfoldable pub get_row : ℕ → List Row → Result Row
  get_row k t = or_throw (find? (is_live k) t) (failure k)

  -- The row that the update would make has a unique value that another row has.
  abbrev pub update_clashes : Update → List Row → Bool
  update_clashes dto t =
      any
        (λ r.
          id r == update_id dto
          && any (λ q. not (id q == update_id dto) && clashes (set dto r) q) t)
        t

  unfoldable pub update_row : Update → List Row → Result (Unit {0}) × List Row
  update_row dto t =
      if update_clashes dto t
      then (err database_error, t)
      else (if affected (λ r. id r == update_id dto) t == 0
          then (err (failure (update_id dto)), t)
          else (ok tt, update_rows (λ r. id r == update_id dto) (set dto) t))

  abbrev pub soft_delete : ℕ → List Row → List Row
  soft_delete k t = update_rows (is_live k) mark t

  unfoldable pub delete_row : ℕ → List Row → Result (Unit {0}) × List Row
  delete_row k t = elim (get_row k t) [ err e ↦ (err e, t) | ok r ↦ (ok tt, soft_delete (id r) t) ]

abbrev missing : String → ProductErrorCode → ℕ → Exception
missing template code k = not_found_exception (Message.about template k) (AppErrorCode.product code)

abbrev or_keep {ℓ} : {A : Type ℓ} → Option A → Option A → Option A
or_keep none old = old
or_keep (some a) old = some a

abbrev or_same {ℓ} : {A : Type ℓ} → Option A → A → A
or_same none old = old
or_same (some a) old = a

pub record ProductBrandEntity : Type 0 where
  pub id : ℕ
  pub name : String
  pub slug : String
  pub description : Option String
  pub logo_url : Option String
  pub is_deleted : Bool

pub record CreateProductBrandDto : Type 0 where
  pub name : String
  pub description : Option String
  pub logo_url : Option String

pub record UpdateProductBrandDto : Type 0 where
  pub id : ℕ
  pub name : Option String
  pub description : Option String
  pub logo_url : Option String

abbrev pub brand : Kind ProductBrandEntity CreateProductBrandDto UpdateProductBrandDto
brand = record {
  id = λ r. r.id;
  is_deleted = λ r. r.is_deleted;
  row_of = λ k slug dto. record {
    id = k;
    name = dto.name;
    slug = slug;
    description = dto.description;
    logo_url = dto.logo_url;
    is_deleted = false;
  };
  update_id = λ dto. dto.id;
  set = λ dto r. record r {
    name = or_same dto.name r.name;
    description = or_keep dto.description r.description;
    logo_url = or_keep dto.logo_url r.logo_url;
  };
  mark = λ r. record r { is_deleted = true };
  clashes = λ r q. str_eq r.name q.name || str_eq r.slug q.slug;
  failure = missing "Product brand ## not found" ProductErrorCode.brand_not_found;
}

pub record ProductCategoryEntity : Type 0 where
  pub id : ℕ
  pub name : String
  pub slug : String
  pub description : Option String
  pub is_deleted : Bool

pub record CreateProductCategoryDto : Type 0 where
  pub name : String
  pub description : Option String

pub record UpdateProductCategoryDto : Type 0 where
  pub id : ℕ
  pub name : Option String
  pub description : Option String

-- The name of a category need not be unique.
abbrev pub category : Kind ProductCategoryEntity CreateProductCategoryDto UpdateProductCategoryDto
category = record {
  id = λ r. r.id;
  is_deleted = λ r. r.is_deleted;
  row_of = λ k slug dto. record {
    id = k;
    name = dto.name;
    slug = slug;
    description = dto.description;
    is_deleted = false;
  };
  update_id = λ dto. dto.id;
  set = λ dto r. record r {
    name = or_same dto.name r.name;
    description = or_keep dto.description r.description;
  };
  mark = λ r. record r { is_deleted = true };
  clashes = λ r q. str_eq r.slug q.slug;
  failure = missing "Product category ## not found" ProductErrorCode.category_not_found;
}

pub record ProductTagEntity : Type 0 where
  pub id : ℕ
  pub name : String
  pub slug : String
  pub is_deleted : Bool

pub record CreateProductTagDto : Type 0 where
  pub name : String

pub record UpdateProductTagDto : Type 0 where
  pub id : ℕ
  pub name : Option String

abbrev pub tag : Kind ProductTagEntity CreateProductTagDto UpdateProductTagDto
tag = record {
  id = λ r. r.id;
  is_deleted = λ r. r.is_deleted;
  row_of = λ k slug dto. record { id = k; name = dto.name; slug = slug; is_deleted = false };
  update_id = λ dto. dto.id;
  set = λ dto r. record r { name = or_same dto.name r.name };
  mark = λ r. record r { is_deleted = true };
  clashes = λ r q. str_eq r.name q.name || str_eq r.slug q.slug;
  failure = missing "Product tag ## not found" ProductErrorCode.tag_not_found;
}
