-- ===== src/Mqtt/Auth/Credentials.antt =====
-- The client id and the signature of a CONNECT: addon/petkit_local/mqtt/auth.py. HMAC and `str.lower`
-- are Python's, the record `Crypto`.
use petkit_local.Prelude.{
  ℕ, Bool, true, false, ◌||◌, Option, none, some, List, [], ◌∷◌, ◌++◌, Text, codes, ◌==◌,
  if◌then◌else◌,
}
use petkit_local.Mqtt.Topics.Segments.{text_eq, is_nonempty}

-- t.split(c, 1), if c is there
unfoldable pub cut : ℕ → Text → Option (Text × Text)
cut c [] = none
cut c (d ∷ t) =
    let rest = cut c t in
    if d == c then some ([], t) else elim rest [ none ↦ none | some (a, b) ↦ some (d ∷ a, b) ]

pub record ClientId : Type 0 where
  pub product_key : Text
  pub device_name : Text
  pub params : List (Text × Text)

-- The rest of a client id after its last bar: nothing, or the newline that `$` lets stand.
unfoldable pub is_end : Text → Bool
is_end [] = true
is_end (c ∷ []) = c == 10
is_end (c ∷ d ∷ t) = false

unfoldable pub push : ℕ → List Text → List Text
push c [] = (c ∷ []) ∷ []
push c (part ∷ parts) = (c ∷ part) ∷ parts

-- t.split(",")
unfoldable pub split_commas : Text → List Text
unfolding push
split_commas [] = [] ∷ []
split_commas (c ∷ t) = let rest = split_commas t in if c == b',' then [] ∷ rest else push c rest

unfoldable pub add_param : Option (Text × Text) → List (Text × Text) → List (Text × Text)
add_param none params = params
add_param (some kv) params = kv ∷ params

-- The parameters, in their order; the last value of a name counts.
unfoldable pub read_params : List Text → List (Text × Text)
unfolding cut add_param
read_params [] = []
read_params (part ∷ parts) = add_param (cut b'=' part) (read_params parts)

unfoldable pub param_or : Text → Text → List (Text × Text) → Text
param_or name default [] = default
param_or name default ((k, v) ∷ params) =
    if text_eq k name then param_or name v params else param_or name default params

unfoldable pub with_params : Text → Text → Option (Text × Text) → Option ClientId
unfolding is_end read_params split_commas
with_params pk dn none = none
with_params pk dn (some (params, rest)) =
    if is_end rest
    then some
        (record { product_key = pk; device_name = dn; params = read_params (split_commas params) })
    else none

unfoldable pub with_name : Text → Option (Text × Text) → Option ClientId
unfolding with_params cut
with_name pk none = none
with_name pk (some (dn, rest)) = if is_nonempty dn then with_params pk dn (cut b'|' rest) else none

unfoldable pub with_key : Option (Text × Text) → Option ClientId
unfolding with_name cut
with_key none = none
with_key (some (pk, rest)) = if is_nonempty pk then with_name pk (cut b'|' rest) else none

-- parse_client_id
unfoldable pub parse_client_id : Text → Option ClientId
unfolding with_key cut
parse_client_id t = with_key (cut b'.' t)

pub record Crypto : Type 0 where
  -- hmac.new(key, content, digest).hexdigest(), for the name of a digest
  pub hmac : (digest key content : Text) → Text
  pub lower : Text → Text

-- _DIGESTS.get(signmethod.lower(), hashlib.sha256)
unfoldable pub digest_of : Text → Text
digest_of method =
    if text_eq method (codes "hmacsha1") || text_eq method (codes "hmacmd5")
    then method
    else codes "hmacsha256"

-- compute_aliyun_sign, of the bare client id
unfoldable pub compute_aliyun_sign : Crypto → (secret dn pk timestamp method : Text) → Text
unfolding digest_of
compute_aliyun_sign x secret dn pk timestamp method = x.hmac (digest_of (x.lower method)) secret (
    codes "clientId"
    ++ ((pk ++ (b'.' ∷ dn))
        ++ (codes "deviceName"
            ++ (dn ++ (codes "productKey" ++ (pk ++ (codes "timestamp" ++ timestamp)))))))
