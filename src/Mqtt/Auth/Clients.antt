-- ===== src/Mqtt/Auth/Clients.antt =====
-- The client id and the signature of a device, read back: addon/petkit_local/mqtt/auth.py.
use petkit_local.Prelude.{
  ℕ, ◌≡◌, refl, true, false, some, List, [], ◌∷◌, ◌++◌, Text, contains, arith,
}
use petkit_local.Mqtt.Topics.Segments.{is_nonempty, Lacks}
use petkit_local.Mqtt.Auth.{
  cut, is_end, split_commas, push, read_params, add_param, with_params, with_name, with_key,
  parse_client_id,
}

cut-append : (c : ℕ) (s t : Text) → Lacks c s → cut c (s ++ (c ∷ t)) ≡ some (s, t)
unfolding cut
cut-append c [] t h = ground arith
cut-append c (d ∷ s) t (ne, h) = ground (arith, cut-append c s t h)

split_commas-append :
    (s t : Text) → Lacks b',' s → split_commas (s ++ (b',' ∷ t)) ≡ s ∷ split_commas t
unfolding split_commas push
split_commas-append [] t h = ground arith
split_commas-append (c ∷ s) t (ne, h) = ground (arith, split_commas-append s t h)

pub Lacks-contains : (a : ℕ) (t : Text) → contains t a ≡ false → Lacks a t
Lacks-contains a [] h = tt
Lacks-contains a (c ∷ t) h = (ground arith, Lacks-contains a t (ground arith))

Lacks-append : (a : ℕ) (s t : Text) → Lacks a s → Lacks a t → Lacks a (s ++ t)
Lacks-append a [] t h k = k
Lacks-append a (c ∷ s) t (ne, h) k = (ne, Lacks-append a s t h k)

-- A parameter as it stands in a client id, and several of them.
abbrev pub pair_text : Text × Text → Text
pair_text (k, v) = k ++ b'=' ∷ v

abbrev pub params_text : List (Text × Text) → Text
params_text [] = []
params_text (p ∷ []) = pair_text p
params_text (p ∷ q ∷ ps) = pair_text p ++ b',' ∷ params_text (q ∷ ps)

-- {pk}.{dn}|k=v,k=v,…|
unfoldable pub device_client_id : (pk dn : Text) → List (Text × Text) → Text
device_client_id pk dn params = pk ++ (b'.' ∷ (dn ++ (b'|' ∷ (params_text params ++ (b'|' ∷ [])))))

-- No separator is in the parameters; an equals sign may be in a value.
abbrev pub IsPlain : List (Text × Text) → Type 0
IsPlain [] = Unit
IsPlain ((k, v) ∷ ps) =
    (Lacks b'=' k × Lacks b',' k × Lacks b'|' k × Lacks b',' v × Lacks b'|' v) × IsPlain ps

pair_commas :
    (k v : Text) (ps : List (Text × Text)) → IsPlain ((k, v) ∷ ps) → Lacks b',' (pair_text (k, v))
pair_commas k v ps h = Lacks-append b',' k (b'=' ∷ v) h.0.1 (ground arith, h.0.3)

pair_bars :
    (k v : Text) (ps : List (Text × Text)) → IsPlain ((k, v) ∷ ps) → Lacks b'|' (pair_text (k, v))
pair_bars k v ps h = Lacks-append b'|' k (b'=' ∷ v) h.0.2 (ground arith, h.0.4)

params_bars : (params : List (Text × Text)) → IsPlain params → Lacks b'|' (params_text params)
params_bars [] h = tt
params_bars ((k, v) ∷ []) h = pair_bars k v [] h
params_bars ((k, v) ∷ q ∷ ps) h =
    Lacks-append b'|' (pair_text (k, v)) _ (pair_bars k v (q ∷ ps) h)
      (ground arith, params_bars (q ∷ ps) h.1)

split_commas-last : (s : Text) → Lacks b',' s → split_commas s ≡ s ∷ []
unfolding split_commas push
split_commas-last [] h = refl
split_commas-last (c ∷ s) (ne, h) = ground (arith, split_commas-last s h)

-- The parameters are read back as they are.
read-params_text :
    (params : List (Text × Text))
    → IsPlain params
    → read_params (split_commas (params_text params)) ≡ params
unfolding read_params add_param split_commas
read-params_text [] h = refl
read-params_text ((k, v) ∷ []) h =
    rw (split_commas-last (pair_text (k, v)) (pair_commas k v [] h), cut-append b'=' k v h.0.0) refl
read-params_text ((k, v) ∷ q ∷ ps) h =
    rw
      (
        split_commas-append (pair_text (k, v)) (params_text (q ∷ ps)) (pair_commas k v (q ∷ ps) h),
        cut-append b'=' k v h.0.0,
        read-params_text (q ∷ ps) h.1,
      )
      refl

-- A client id in the form that a device connects with is read back as its product key, its device name
-- and its parameters, if the key and the name are not empty, no dot is in the key, no bar in the name,
-- no equals sign in a parameter's name, and no comma or bar in its name or value.
pub parse_client_id-device_client_id :
    (pk dn : Text) (params : List (Text × Text))
    → is_nonempty pk ≡ true
    → is_nonempty dn ≡ true
    → Lacks b'.' pk
    → Lacks b'|' dn
    → IsPlain params
    → parse_client_id (device_client_id pk dn params)
      ≡ some (record { product_key = pk; device_name = dn; params = params })
unfolding parse_client_id device_client_id with_key with_name with_params is_end
parse_client_id-device_client_id pk dn params p d dot bar plain =
    rw
      (
        cut-append b'.' pk _ dot,
        p,
        cut-append b'|' dn _ bar,
        d,
        cut-append b'|' (params_text params) [] (params_bars params plain),
        read-params_text params plain,
      )
      refl
