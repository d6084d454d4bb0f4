-- ===== src/Config/Tests.antt =====
-- Configurations with groups, endpoints and timespans.
use baseplate_py.Prelude.{◌≡◌, refl, ◌↔◌, true, [], ◌∷◌, ok, err, codes, int}
use baseplate_py.Prelude.Int.{ℤ, pos, negsuc}
use baseplate_py.Metrics.{bytes_eq}
use baseplate_py.Config.{
  ValueError, no_port, parse_integer, parse_boolean, parse_endpoint, internet_address, partition,
  has_char, inet, one_of, tuple_of, parse_items, split_at, lstrip, rstrip,
}
use baseplate_py.Config.Spec.{
  Parser, callable, spec, dict_of, end, entry, Parsed, value, namespace, empty, field, Fields,
  RawConfig, raw_value, sub_key_path, root_of, until_dot, subkey_of, is_seen, parse_groups, parse,
  parse_config,
}
use baseplate_py.Config.Leaves.{leaf_at, value_at, full_path, Read, parse_config-Read}
use baseplate_py.Config.Endpoints.{str_endpoint, IsAddress, parse_endpoint-str_endpoint}

abbrev integers : Parser ValueError ℤ
integers = callable parse_integer

abbrev server : Parser ValueError ℤ
server = spec (
    entry (codes "retries") integers (
      entry (codes "db") (spec (entry (codes "port") integers end))
        (entry (codes "population") (dict_of integers) end)))

abbrev raw : RawConfig
raw =
    (codes "retries", codes "3")
    ∷ (codes "population.br", codes "207_645")
    ∷ (codes "db.port", codes "5432")
    ∷ (codes "population.cn", codes "-1")
    ∷ (codes "population.br.old", codes "0")
    ∷ []

abbrev population : Fields ℤ
population = field (codes "br") (value (pos 207645)) (field (codes "cn") (value (negsuc 0)) empty)

abbrev parsed : Parsed ℤ
parsed = namespace (
    field (codes "retries") (value (pos 3)) (
      field (codes "db") (namespace (field (codes "port") (value (pos 5432)) empty))
        (field (codes "population") (namespace population) empty)))

server_result : parse_config raw server ≡ ok parsed
unfolding parse_config parse raw_value sub_key_path root_of subkey_of until_dot is_seen parse_groups
    has_char parse_integer int bytes_eq
server_result = refl

abbrev wrong : RawConfig
wrong = (codes "retries", codes "3") ∷ (codes "db.port", codes "http") ∷ []

parse_config-Read_example :
    Read parse_integer
      (full_path [] (codes "db" ∷ codes "port" ∷ []))
      raw
      (value_at parsed (codes "db" ∷ codes "port" ∷ []))
unfolding leaf_at bytes_eq
parse_config-Read_example =
    parse_config-Read server raw parsed (codes "db" ∷ codes "port" ∷ []) parse_integer server_result
      refl

parse_endpoint-str_endpoint_example :
    (parse_endpoint (str_endpoint (inet (codes "localhost") (pos 80)))
      ≡ ok (inet (codes "localhost") (pos 80)))
    ↔ IsAddress (inet (codes "localhost") (pos 80))
parse_endpoint-str_endpoint_example =
    parse_endpoint-str_endpoint (inet (codes "localhost") (pos 80))

-- only commas: no value, and no error
tuple_of_nothing : tuple_of parse_integer (codes " , ,") ≡ ok []
unfolding tuple_of parse_items split_at lstrip rstrip
tuple_of_nothing = refl

tuple_of_three : tuple_of parse_integer (codes "1, +2 ,,-3") ≡ ok (pos 1 ∷ pos 2 ∷ negsuc 2 ∷ [])
unfolding tuple_of parse_items split_at lstrip rstrip parse_integer int
tuple_of_three = refl

endpoint_without_port : parse_endpoint (codes "localhost") ≡ err no_port
unfolding parse_endpoint has_char partition internet_address
endpoint_without_port = refl

boolean_lowered : parse_boolean (codes "True") ≡ ok true
unfolding parse_boolean one_of bytes_eq
boolean_lowered = refl
