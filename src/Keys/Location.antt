-- ===== src/Keys/Location.antt =====
-- The identifier in the header "location" (`extract_key_id_location_header` of backend/key.rs).
use Prim.Native.Char.{Char, code}
use nethsm_pkcs.Common.{◌≡◌, refl, String, Bool, false, ◌||◌, some, ok, ◌==◌, arith}
use nethsm_pkcs.Keys.Create.{has_slash, last_segment, before_query, extract_key_id_location_header}

-- Texts in a row.
abbrev pub join : String → String → String
join String.[] t = t
join (String.◌∷◌ c s) t = String.◌∷◌ c (join s t)

abbrev pub has_query : String → Bool
has_query String.[] = false
has_query (String.◌∷◌ c s) = code c == 63 || has_query s

abbrev pub slash : Char
slash = "/"

abbrev pub question_mark : Char
question_mark = "?"

-- A base, the identifier, and the parameters of a query.
abbrev pub location : String → String → String → String
location base id query = join base (String.◌∷◌ slash (join id (String.◌∷◌ question_mark query)))

has_slash-join : (s t : String) → has_slash (join s t) ≡ (has_slash s || has_slash t)
unfolding has_slash
has_slash-join String.[] t = refl
has_slash-join (String.◌∷◌ c s) t = ground (arith, has_slash-join s t)

last_segment_whole : (s : String) → has_slash s ≡ false → last_segment s ≡ s
unfolding last_segment has_slash
last_segment_whole String.[] h = refl
last_segment_whole (String.◌∷◌ c s) h = ground arith

last_segment-join :
    (base s : String) → has_slash s ≡ false → last_segment (join base (String.◌∷◌ slash s)) ≡ s
unfolding last_segment has_slash
last_segment-join String.[] s h = ground arith
last_segment-join (String.◌∷◌ c base) s h =
    ground (arith, last_segment-join base s h, has_slash-join base (String.◌∷◌ slash s))

before_query-join :
    (id query : String)
    → has_query id ≡ false
    → before_query (join id (String.◌∷◌ question_mark query)) ≡ id
unfolding before_query
before_query-join String.[] query h = refl
before_query-join (String.◌∷◌ c id) query h = ground (arith, before_query-join id query)

-- From a location that ends in an identifier and a query, without "/" in either and without "?" in
-- the identifier, `extract_key_id_location_header` takes the identifier, whatever the base is.
pub extract_key_id_location_header-location :
    (base id query : String)
    → has_slash id ≡ false
    → has_query id ≡ false
    → has_slash query ≡ false
    → extract_key_id_location_header (some (location base id query)) ≡ ok id
unfolding extract_key_id_location_header has_slash
extract_key_id_location_header-location base id query h q r = ground (
  arith,
  last_segment-join base (join id (String.◌∷◌ question_mark query)),
  has_slash-join id (String.◌∷◌ question_mark query),
  before_query-join id query q,
)
