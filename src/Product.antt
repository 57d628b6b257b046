-- ===== src/Product.antt =====
-- apps/product-service/src: the table of products (modules/product/entity), the activities
-- (activity/*.ts) and the RPC handlers (modules/product/product.service.ts). A new row's id is an
-- argument, and so is whether the database takes a write. The columns that the framework fills (slug,
-- version, dates) are left out; a row that is soft-deleted stays and no query sees it. Of the tables
-- of categories, brands and tags these operations see the ids that have a row.
pub mod Laws
pub mod Saga
pub mod Shop
pub mod Rpc
pub mod Tests
use nest_microservices_tempo.Prelude.{
  ℕ, zero, suc, ℤ, String, Bool, true, false, not, ◌&&◌, Option, none, some, List, [], ◌∷◌, ◌++◌,
  map, ◌==◌, if◌then◌else◌, find?, any, keep,
}
use nest_microservices_tempo.Errors.{
  Message, Exception, Result, ok, err, ◌>>=◌, or_throw, AppErrorCode, ProductErrorCode,
  bad_request_exception, not_found_exception,
}
use nest_microservices_tempo.Store.{affected, update_rows}
use nest_microservices_tempo.Order.{Prices}

pub record ProductImageEntity : Type 0 where
  pub image_url : String
  pub is_thumbnail : Bool

abbrev pub Attributes : Type 0
Attributes = List (String × String)

pub record ProductEntity : Type 0 where
  pub id : ℕ
  pub name : String
  pub description : Option String
  pub category_id : Option ℕ
  pub brand_id : Option ℕ
  pub price : ℤ
  pub images : List ProductImageEntity
  pub is_active : Bool
  pub attributes : Attributes
  pub tags : List ℕ
  pub is_deleted : Bool

abbrev pub Products : Type 0
Products = List ProductEntity

-- The ids of the rows of product-category, product-brand and product-tag.
pub record Metadata : Type 0 where
  pub categories : List ℕ
  pub brands : List ℕ
  pub tags : List ℕ

pub record CreateProductDto : Type 0 where
  pub name : String
  pub description : Option String
  pub price : ℤ
  pub quantity : Option ℤ
  pub image_urls : Option (List String)
  pub category_id : Option ℕ
  pub brand_id : Option ℕ
  pub tag_ids : Option (List ℕ)
  pub attributes : Option Attributes

pub record UpdateProductDto : Type 0 where
  pub id : ℕ
  pub name : Option String
  pub description : Option String
  pub price : Option ℤ
  pub image_urls : Option (List String)
  pub category_id : Option ℕ
  pub brand_id : Option ℕ
  pub tag_ids : Option (List ℕ)
  pub attributes : Option Attributes

abbrev pub has_id : List ℕ → ℕ → Bool
has_id ids i = any (λ j. j == i) ids

-- The ids of a list that are not among others: `ids.filter((id) => !foundIds.has(id))`.
abbrev pub missing_ids : (found ids : List ℕ) → List ℕ
missing_ids found ids = keep (λ i. not (has_id found i)) ids

-- A test of an id that may be missing or 0, and is then let through.
abbrev pub check_id : Option ℕ → List ℕ → Exception → Result (Unit {0})
check_id none ids e = ok tt
check_id (some zero) ids e = ok tt
check_id (some (suc n)) ids e = if has_id ids (suc n) then ok tt else err e

abbrev id_of : Option ℕ → ℕ
id_of none = 0
id_of (some n) = n

abbrev pub check_tags : Option (List ℕ) → List ℕ → Result (Unit {0})
check_tags none found = ok tt
check_tags (some ids) found = elim (missing_ids found ids) [
  | [] ↦ ok tt
  | i ∷ is ↦ err (
      not_found_exception (Message.about_list "Tags not found: #" (i ∷ is))
        (AppErrorCode.product ProductErrorCode.tag_not_found))
]

-- The category, the brand and the tags, in this order.
unfoldable pub validate_metadata :
    Metadata → (category_id brand_id : Option ℕ) → Option (List ℕ) → Result (Unit {0})
validate_metadata m category_id brand_id tag_ids = do
  _ ← check_id category_id m.categories (
      not_found_exception (Message.about "Category ## not found" (id_of category_id))
        (AppErrorCode.product ProductErrorCode.category_not_found))
  _ ← check_id brand_id m.brands (
      not_found_exception (Message.about "Brand ## not found" (id_of brand_id))
        (AppErrorCode.product ProductErrorCode.brand_not_found))
  check_tags tag_ids m.tags

abbrev pub is_live : ProductEntity → Bool
is_live r = not r.is_deleted

abbrev pub is_listed : ProductEntity → Bool
is_listed r = not r.is_deleted && r.is_active

-- `find({ where: { id: In(productIds), is_active: true } })`
abbrev pub found_products : List ℕ → Products → Products
found_products ids t = keep (λ r. is_listed r && has_id ids r.id) t

unfoldable pub validate_products : List ℕ → Products → Bool
validate_products ids t = elim (missing_ids (map (λ r. r.id) (found_products ids t)) ids) [
  | [] ↦ true
  | i ∷ is ↦ false
]

unfoldable pub get_product_prices : List ℕ → Products → Prices
get_product_prices ids t = map (λ r. (r.id, r.price)) (found_products ids t)

-- The first image is the thumbnail.
abbrev pub other_images : List String → List ProductImageEntity
other_images urls = map (λ u. record { image_url = u; is_thumbnail = false }) urls

abbrev pub to_images : List String → List ProductImageEntity
to_images [] = []
to_images (u ∷ urls) = record { image_url = u; is_thumbnail = true } ∷ other_images urls

abbrev pub or_else {ℓ} : {A : Type ℓ} → Option A → A → A
or_else none a = a
or_else (some b) a = b

abbrev pub or_keep {ℓ} : {A : Type ℓ} → Option A → Option A → Option A
or_keep none o = o
or_keep (some b) o = some b

abbrev pub new_product : ℕ → CreateProductDto → ProductEntity
new_product id dto = record {
  id = id;
  name = dto.name;
  description = dto.description;
  category_id = dto.category_id;
  brand_id = dto.brand_id;
  price = dto.price;
  images = to_images (or_else dto.image_urls []);
  is_active = true;
  attributes = or_else dto.attributes [];
  tags = or_else dto.tag_ids [];
  is_deleted = false;
}

abbrev pub database_error : Exception
database_error = Exception.error (Message.text "database error")

unfoldable pub create_product :
    (accepts : Bool) (id : ℕ) → CreateProductDto → Products → Result ℕ × Products
create_product accepts id dto t =
    if accepts then (ok id, t ++ new_product id dto ∷ []) else (err database_error, t)

abbrev pub live_id : ℕ → ProductEntity → Bool
live_id p r = not r.is_deleted && r.id == p

abbrev pub deleted : ProductEntity → ProductEntity
deleted r = record r { is_deleted = true }

-- `softDelete(productId)`, which throws if no row is affected, or the database takes no write.
unfoldable pub delete_product : (accepts : Bool) → ℕ → Products → Result (Unit {0}) × Products
delete_product false p t = (err database_error, t)
delete_product true p t =
    if affected (live_id p) t == 0
    then (
      err (
          bad_request_exception (Message.about "Delete product # failed" p)
            (AppErrorCode.product ProductErrorCode.delete_product_failed)),
      t,
    )
    else (ok tt, update_rows (live_id p) deleted t)

unfoldable pub get_products : Products → Products
get_products t = keep is_listed t

unfoldable pub get_product : ℕ → Products → Result ProductEntity
get_product p t = or_throw (find? (λ r. is_listed r && r.id == p) t) (
    not_found_exception (Message.about "Product ## not found" p)
      (AppErrorCode.product ProductErrorCode.not_found))

-- What `preload` merges into the row: a part that is undefined leaves it alone, and the tags are
-- `[]` where none are given.
abbrev pub merged : UpdateProductDto → ProductEntity → ProductEntity
merged dto r = record r {
  name = or_else dto.name r.name;
  description = or_keep dto.description r.description;
  price = or_else dto.price r.price;
  category_id = or_keep dto.category_id r.category_id;
  brand_id = or_keep dto.brand_id r.brand_id;
  tags = or_else dto.tag_ids [];
  images = elim dto.image_urls [ none ↦ r.images | some urls ↦ to_images urls ];
  attributes = or_else dto.attributes r.attributes;
}

-- `preload` and `save`.
abbrev pub save_update : Bool → UpdateProductDto → Products → Result ℕ × Products
save_update accepts dto t = elim (find? (live_id dto.id) t) [
  | none ↦ (
    err (
        not_found_exception (Message.about "Product ## not found" dto.id)
          (AppErrorCode.product ProductErrorCode.not_found)),
    t,
  )
  | some r ↦
      if accepts
      then (ok dto.id, update_rows (live_id dto.id) (merged dto) t)
      else (err database_error, t)
]

unfoldable pub update_product :
    (accepts : Bool) → Metadata → UpdateProductDto → Products → Result ℕ × Products
update_product accepts m dto t =
    elim (validate_metadata m dto.category_id dto.brand_id dto.tag_ids) [
      | err e ↦ (err e, t)
      | ok _ ↦ save_update accepts dto t
    ]

-- The handler of a deletion: of a product that is listed.
unfoldable pub delete_product_rpc : ℕ → Products → Result (Unit {0}) × Products
delete_product_rpc p t = elim (get_product p t) [
  | err e ↦ (err e, t)
  | ok r ↦ (ok tt, update_rows (live_id r.id) deleted t)
]
