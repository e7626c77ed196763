-- ===== src/Extract/Product.antt =====
-- `findProduct` and `jsonLdField` of worker/src/extract.ts, on parsed JSON.
use price_scout.Base.{Bool, true, false, ◌||◌, Option, none, some, List, [], ◌∷◌, ◌++◌}
use price_scout.Base.{if◌then◌else◌}
use price_scout.Base.Text.{Text, codes, text_eq, join}
use price_scout.Base.Effects.{Result, ok, err, plain, msg}
use price_scout.Contracts.{JsonLdField, title, sku, price, currency, availability}
use price_scout.Outside.{
  Json, null, bool, num, str, arr, obj, Elems, nil, cons, Members, end, member,
}

-- `object[key]`, with `none` for `undefined`
unfoldable pub get : Text → Members → Option Json
get key end = none
get key (member k v more) = if text_eq k key then some v else get key more

abbrev is_product_text : Json → Bool
is_product_text (str s) = text_eq s (codes "Product")
is_product_text _ = false

unfoldable pub includes_product : Elems → Bool
includes_product nil = false
includes_product (cons v vs) = is_product_text v || includes_product vs

abbrev is_product_type : Option Json → Bool
is_product_type none = false
is_product_type (some (arr vs)) = includes_product vs
is_product_type (some v) = is_product_text v

unfoldable pub is_product : Members → Bool
unfolding includes_product get
is_product object = is_product_type (get (codes "@type") object)

abbrev or_else : Option Members → Option Members → Option Members
or_else (some m) rest = some m
or_else none rest = rest

-- An array is searched in order; an object that is no product is searched at "@graph".
unfoldable mutual
  pub find_product : Json → Option Members
  find_product (arr vs) = find_in vs
  find_product (obj ms) = if is_product ms then some ms else find_graph ms
  find_product _ = none

  pub find_in : Elems → Option Members
  find_in nil = none
  find_in (cons v vs) = or_else (find_product v) (find_in vs)

  pub find_graph : Members → Option Members
  find_graph end = none
  find_graph (member k v more) =
      if text_eq k (codes "@graph") then find_product v else find_graph more

-- `String(value)`
unfoldable mutual
  pub to_text : Json → Text
  to_text null = codes "null"
  to_text (bool true) = codes "true"
  to_text (bool false) = codes "false"
  to_text (num t) = t
  to_text (str s) = s
  to_text (arr vs) = join (codes ",") (to_texts vs)
  to_text (obj ms) = codes "[object Object]"

  pub to_texts : Elems → List Text
  to_texts nil = []
  to_texts (cons null vs) = [] ∷ to_texts vs
  to_texts (cons v vs) = to_text v ∷ to_texts vs

-- The first offer of a list of offers, and no members where there is no object.
abbrev members_of : Option Json → Members
members_of (some (obj ms)) = ms
members_of _ = end

abbrev pub first_offer : Option Json → Members
first_offer (some (arr nil)) = end
first_offer (some (arr (cons v vs))) = members_of (some v)
first_offer v = members_of v

-- `left ?? right`
abbrev pub coalesce : Option Json → Option Json → Option Json
coalesce none right = right
coalesce (some null) right = right
coalesce left right = left

unfoldable pub field_value : Members → JsonLdField → Option Json
field_value product title = get (codes "name") product
field_value product sku = get (codes "sku") product
field_value product price =
    let offer = first_offer (get (codes "offers") product) in
    coalesce (get (codes "price") offer) (get (codes "lowPrice") offer)
field_value product currency =
    get (codes "priceCurrency") (first_offer (get (codes "offers") product))
field_value product availability =
    get (codes "availability") (first_offer (get (codes "offers") product))

abbrev pub field_name : JsonLdField → Text
field_name title = codes "title"
field_name sku = codes "sku"
field_name price = codes "price"
field_name currency = codes "currency"
field_name availability = codes "availability"

abbrev text_or_throw : JsonLdField → Option Json → Result Text
text_or_throw field none = err (plain (msg "JSON-LD has no " ++ field_name field))
text_or_throw field (some null) = err (plain (msg "JSON-LD has no " ++ field_name field))
text_or_throw field (some v) = ok (to_text v)

unfoldable pub json_ld_field : Members → JsonLdField → Result Text
unfolding field_value to_text
json_ld_field product field = text_or_throw field (field_value product field)
