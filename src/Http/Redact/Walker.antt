-- ===== src/Http/Redact/Walker.antt =====
-- The descent of addon/petkit_local/http/redact/walker.py. A visitor is the walk that a node's children
-- get: the walk itself, with one unit of fuel less, and without fuel a node is dropped.
pub mod Clean
pub mod Safe
pub mod Settled
pub mod Plain
pub mod Harmless
use petkit_local.Prelude.{
  ℕ, zero, suc, ◌+◌, String, Bool, true, false, ◌&&◌, ◌||◌, Option, none, some, List, [], ◌∷◌, ◌++◌,
  ◌==◌, leb, if◌then◌else◌, Text,
}
use petkit_local.Prelude.Json.{Json, str, arr, obj, Items, nil, cons, Fields, end, field}
use petkit_local.Http.Redact.{BodyPath, index, Out, JsonCodec, Policy}
use petkit_local.Http.Redact.Objects.{json_eq}
use petkit_local.Http.Redact.Rules.{
  child, Rewritten, match_rce, match_ota_shape, match_server, match_mqtt,
}
use petkit_local.Http.Redact.Uploads.{match_oss_sts, match_cvr_capacity, match_secret, match_locale}

-- What a walk leaves of a node: _DROP, or a value.
pub data Walked : Type 0 where
  drop : Walked
  keep : Json → Walked

pub record Visit : Type 0 where
  pub got : Walked
  pub out : Out

abbrev pub Visitor : Type 0
Visitor = BodyPath → Bool → Json → Out → Visit

pub record ItemsVisit : Type 0 where
  pub items : Items
  pub out : Out

pub record FieldsVisit : Type 0 where
  pub fields : Fields
  pub tainted : Bool
  pub out : Out

unfoldable pub add_item : Walked → ItemsVisit → ItemsVisit
add_item Walked.drop rest = rest
add_item (Walked.keep x) rest = record rest { items = cons x rest.items }

-- The loop over a list, from an index on.
unfoldable pub walk_items : Visitor → BodyPath → ℕ → Items → Out → ItemsVisit
unfolding add_item
walk_items visit path i nil out = record { items = nil; out = out }
walk_items visit path i (cons x xs) out =
    let v = visit (path ++ index i ∷ []) true x out in
    add_item v.got (walk_items visit path (suc i) xs v.out)

unfoldable pub add_field : String → Walked → FieldsVisit → FieldsVisit
add_field k Walked.drop rest = record rest { tainted = true }
add_field k (Walked.keep v) rest = record rest { fields = field k v rest.fields }

-- The loop over an object.
unfoldable pub walk_fields : Visitor → BodyPath → Fields → Out → FieldsVisit
unfolding add_field
walk_fields visit path end out = record { fields = end; tainted = false; out = out }
walk_fields visit path (field k v fs) out =
    let seen = visit (child path k) false v out in
    add_field k seen.got (walk_fields visit path fs seen.out)

-- The six rules that rewrite an object, in their order.
unfoldable pub substitute : Policy → BodyPath → Fields → Out → Rewritten
unfolding match_server match_mqtt match_oss_sts match_cvr_capacity match_secret match_locale
substitute policy path node out =
    let a = match_server policy.device path node out in
    let b = match_mqtt policy.device path a.node a.out in
    let c = match_oss_sts policy policy.device path b.node b.out in
    let d = match_cvr_capacity policy policy.device path c.node c.out in
    let e = match_secret policy.device path d.node d.out in
    match_locale policy.device path e.node e.out

unfoldable pub unless_blocked : Option Out → Visit → Visit
unless_blocked none visit = visit
unless_blocked (some out) visit = record { got = Walked.drop; out = out }

-- An entry of a list that lost a child goes.
unfoldable pub close_dict : Bool → FieldsVisit → Visit
close_dict in_list rest = record {
  got = if rest.tainted && in_list then Walked.drop else Walked.keep (obj rest.fields);
  out = rest.out;
}

-- _walk_dict
unfoldable pub walk_dict : Visitor → Policy → BodyPath → Bool → Fields → Out → Visit
unfolding unless_blocked match_rce match_ota_shape substitute close_dict walk_fields
walk_dict visit policy path in_list node out = unless_blocked (match_rce policy path node out) (
    unless_blocked (match_ota_shape policy path node out) (
      let done = substitute policy path node out in
      close_dict in_list (walk_fields visit path done.node done.out)))

-- str.isspace of one code point
is_space : ℕ → Bool
is_space c =
    (leb 9 c && leb c 13)
    || (leb 28 c && leb c 32)
    || (c == 133 || c == 160 || c == 5760)
    || (leb 8192 c && leb c 8202)
    || (c == 8232 || c == 8233 || c == 8239 || c == 8287 || c == 12288)

-- node.lstrip()[:1] in ("{", "[")
unfoldable opens_document : Text → Bool
unfolding is_space
opens_document [] = false
opens_document (c ∷ t) =
    let rest = opens_document t in if is_space c then rest else c == b'{' || c == b'['

unfoldable pub container : Option Json → Option Json
container (some (arr xs)) = some (arr xs)
container (some (obj fs)) = some (obj fs)
container other = none

-- The object or list that a text encodes.
unfoldable pub embedded : JsonCodec → Text → Option Json
unfolding opens_document container
embedded codec t = if opens_document t then container (codec.loads t) else none

unfoldable pub re_encode : JsonCodec → Text → Json → Walked → Walked
unfolding json_eq
re_encode codec t inner Walked.drop = Walked.drop
re_encode codec t inner (Walked.keep got) =
    Walked.keep (str (if json_eq got inner then t else codec.dumps_compact got))

-- _walk_json_string
unfoldable pub walk_inner : JsonCodec → Visitor → BodyPath → Text → Option Json → Out → Visit
unfolding re_encode
walk_inner codec visit path t none out = record { got = Walked.keep (str t); out = out }
walk_inner codec visit path t (some inner) out =
    let v = visit path false inner out in
    record { got = re_encode codec t inner v.got; out = v.out }

unfoldable pub walk_json_string : JsonCodec → Visitor → BodyPath → Text → Out → Visit
unfolding walk_inner embedded
walk_json_string codec visit path t out = walk_inner codec visit path t (embedded codec t) out

-- _walk
unfoldable pub visit_node : JsonCodec → Policy → Visitor → Visitor
unfolding walk_dict walk_items walk_json_string
visit_node codec policy visit path in_list (obj fs) out = walk_dict visit policy path in_list fs out
visit_node codec policy visit path in_list (arr xs) out =
    let seen = walk_items visit path 0 xs out in
    record { got = Walked.keep (arr seen.items); out = seen.out }
visit_node codec policy visit path in_list (str t) out = walk_json_string codec visit path t out
visit_node codec policy visit path in_list node out = record { got = Walked.keep node; out = out }

unfoldable pub walk : JsonCodec → Policy → ℕ → Visitor
unfolding visit_node
walk codec policy zero path in_list node out = record { got = Walked.drop; out = out }
walk codec policy (suc fuel) path in_list node out =
    visit_node codec policy (walk codec policy fuel) path in_list node out
