-- ===== src/Catalog/Tests.antt =====
-- A category and a tag, and the theorems at them.
use nest_microservices_tempo.Prelude.{◌≡◌, refl, true, false, none, some, [], ◌∷◌}
use nest_microservices_tempo.Errors.{ok}
use nest_microservices_tempo.Catalog.{
  ProductBrandEntity, CreateProductCategoryDto, ProductTagEntity, UpdateProductTagDto, category,
  tag, create_row, update_row,
}

abbrev shoes : ProductBrandEntity
shoes = record {
  id = 1;
  name = "Shoes";
  slug = "shoes-0a";
  description = none;
  logo_url = none;
  is_deleted = false;
}

abbrev old_tag : ProductTagEntity
old_tag = record { id = 3; name = "old"; slug = "old-0c"; is_deleted = true }

abbrev renamed : UpdateProductTagDto
renamed = record { id = 3; name = some "new" }

-- The tag that is deleted is updated all the same.
renamed_deleted : (update_row tag renamed (old_tag ∷ [])).0 ≡ ok tt
unfolding update_row
renamed_deleted = refl

abbrev sport : CreateProductCategoryDto
sport = record { name = "Sport"; description = none }

-- Two categories may have the same name.
same_name :
    (create_row category 2 "sport-02" sport (category.row_of 1 "sport-01" sport ∷ [])).0
    ≡ ok (category.row_of 2 "sport-02" sport)
unfolding create_row
same_name = refl
