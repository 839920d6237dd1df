-- ===== src/Ble/Registry/Bindings/Usable.antt =====
-- Every accessory that `cloud_bindings` of addon/petkit_local/devices/ble/registry.py reads can be found.
use petkit_local.Prelude.{
  ◌≡◌, ◌≢◌, refl, sym, ap, ◌∙◌, inl, inr, Bool, true, false, ◌&&◌, Option, none, some, List, [],
  ◌∷◌, Text, codes, arith, if◌then◌else◌, All,
}
use petkit_local.Prelude.Int.{ℤ, pos, positive}
use petkit_local.Prelude.Json.{
  Json, null, flag, num, str, raw, arr, obj, Items, nil, cons, Fields, lookup_field,
}
use petkit_local.Mqtt.Topics.Segments.{text_eq, is_nonempty}
use petkit_local.Http.Redact.Objects.{int_eq}
use petkit_local.Ble.Mac.{Letters, ReadsHex, is_mac, normalize_mac}
use petkit_local.Ble.Mac.Spelling.{normalize_mac-cases, normalize_mac-is_mac}
use petkit_local.Ble.Registry.{Binding}
use petkit_local.Ble.Registry.Bindings.{
  Readers, nonzero_or, binding_of, text_at, int_at, unless_unusable, cloud_binding, add_found,
  listed, relayed, k3_binding, k3_node, in_result, cloud_bindings,
}

-- A binding that an accessory can be matched by: a MAC in its normal form, an id above 0, an interval
-- that is not 0, and the parent that asked.
pub record IsUsable (l : Letters) (parent : ℤ) (b : Binding) : Type 0 where
  pub mac_valid : is_mac b.mac ≡ true
  pub mac_normal : normalize_mac l b.mac ≡ b.mac
  pub id_positive : positive b.petkit_id ≡ true
  pub linked : b.link_with ≡ parent
  pub polled : b.interval ≢ some (pos 0)

nonzero : (n : ℤ) → some (nonzero_or n (pos 240)) ≢ some (pos 0)
unfolding nonzero_or int_eq
nonzero n e = ground arith

mac_missing : (m : Text) → m ≡ [] → is_nonempty m ≢ true
unfolding is_nonempty
mac_missing [] e = cc
mac_missing (c ∷ m) e = absurd (cc)

module _ (x : Readers) (r : ReadsHex x.letters) where
  nonempty_mac :
      (t : Text)
      → is_nonempty (normalize_mac x.letters t) ≡ true
      → is_mac (normalize_mac x.letters t) ≡ true
  nonempty_mac t n = elim (normalize_mac-cases x.letters t) [
    | inl e ↦ absurd (mac_missing (normalize_mac x.letters t) e n)
    | inr h ↦ h
  ]

  abbrev Usable : ℤ → Binding → Type 0
  Usable = IsUsable x.letters

  abbrev SomeUsable : ℤ → Option Binding → Type 0
  SomeUsable parent none = Unit
  SomeUsable parent (some b) = Usable parent b

  unless-IsUsable :
      (mac : Text) (parent : ℤ) (ble_type : Text) (entry : Fields) (t : Text)
      → mac ≡ normalize_mac x.letters t
      → SomeUsable parent (unless_unusable x mac parent ble_type entry)
  unfolding unless_unusable
  unless-IsUsable mac parent ble_type entry t e =
      choose (is_nonempty mac) (positive (int_at x "id" (pos 0) entry)) refl refl
    where
      choose :
          (p q : Bool)
          → is_nonempty mac ≡ p
          → positive (int_at x "id" (pos 0) entry) ≡ q
          → SomeUsable parent
              (if p && q then some (binding_of x mac parent ble_type entry) else none)
      choose false q f g = tt
      choose true false f g = tt
      choose true true f g =
          let valid : is_mac mac ≡ true =
            ap is_mac e ∙ nonempty_mac t (ap is_nonempty (sym e) ∙ f) in
          unfold binding_of in
          record {
            mac_valid = valid;
            mac_normal = normalize_mac-is_mac x.letters r mac valid;
            id_positive = g;
            linked = refl;
            polled = nonzero (int_at x "interval" (pos 240) entry);
          }

  cloud_binding-IsUsable :
      (e : Json) (parent : ℤ) (ble_type : Text)
      → SomeUsable parent (cloud_binding x e parent ble_type)
  unfolding cloud_binding
  cloud_binding-IsUsable null parent ble_type = tt
  cloud_binding-IsUsable (flag b) parent ble_type = tt
  cloud_binding-IsUsable (num n) parent ble_type = tt
  cloud_binding-IsUsable (str t) parent ble_type = tt
  cloud_binding-IsUsable (raw t) parent ble_type = tt
  cloud_binding-IsUsable (arr items) parent ble_type = tt
  cloud_binding-IsUsable (obj entry) parent ble_type =
      unless-IsUsable (normalize_mac x.letters (text_at x "mac" entry)) parent ble_type entry
        (text_at x "mac" entry) refl

  add_found-IsUsable :
      (parent : ℤ) (o : Option Binding) (bs : List Binding)
      → SomeUsable parent o
      → All (Usable parent) bs
      → All (Usable parent) (add_found x o bs)
  unfolding add_found
  add_found-IsUsable parent none bs h hs = hs
  add_found-IsUsable parent (some b) bs h hs = (h, hs)

  listed-IsUsable : (entries : Items) (parent : ℤ) → All (Usable parent) (listed x entries parent)
  unfolding listed
  listed-IsUsable nil parent = tt
  listed-IsUsable (cons e entries) parent =
      add_found-IsUsable parent (cloud_binding x e parent []) (listed x entries parent)
        (cloud_binding-IsUsable e parent []) (listed-IsUsable entries parent)

  relayed-IsUsable : (o : Option Json) (parent : ℤ) → All (Usable parent) (relayed x o parent)
  unfolding relayed
  relayed-IsUsable none parent = tt
  relayed-IsUsable (some null) parent = tt
  relayed-IsUsable (some (flag b)) parent = tt
  relayed-IsUsable (some (num n)) parent = tt
  relayed-IsUsable (some (str t)) parent = tt
  relayed-IsUsable (some (raw t)) parent = tt
  relayed-IsUsable (some (obj fs)) parent = tt
  relayed-IsUsable (some (arr entries)) parent = listed-IsUsable entries parent

  k3-IsUsable :
      (own : Bool) (result : Fields) (o : Option Binding) (parent : ℤ)
      → SomeUsable parent o
      → All (Usable parent) (k3_binding x own result o)
  unfolding k3_binding
  k3-IsUsable own result none parent h = tt
  k3-IsUsable own result (some b) parent h = (
    record {
      mac_valid = h.mac_valid;
      mac_normal = h.mac_normal;
      id_positive = h.id_positive;
      linked = h.linked;
      polled = h.polled;
    },
    tt,
  )

  in_result-IsUsable :
      (endpoint : Text) (o : Option Json) (parent : ℤ)
      → All (Usable parent) (in_result x endpoint o parent)
  unfolding in_result
  in_result-IsUsable endpoint none parent = tt
  in_result-IsUsable endpoint (some null) parent = tt
  in_result-IsUsable endpoint (some (flag b)) parent = tt
  in_result-IsUsable endpoint (some (num n)) parent = tt
  in_result-IsUsable endpoint (some (str t)) parent = tt
  in_result-IsUsable endpoint (some (raw t)) parent = tt
  in_result-IsUsable endpoint (some (arr items)) parent = tt
  in_result-IsUsable endpoint (some (obj result)) parent =
      choose (text_eq endpoint (codes "dev_ble_device"))
    where
      nested : Bool
      nested = text_eq endpoint (codes "dev_device_info")

      own : Bool
      own = text_eq endpoint (codes "dev_k3_device_info")

      k3 : Option Binding
      k3 = cloud_binding x (k3_node x nested result) parent (codes "k3")

      choose :
          (b : Bool)
          → All (Usable parent) (
              if b
              then relayed x (lookup_field "list" result) parent
              else k3_binding x own result k3)
      choose true = relayed-IsUsable (lookup_field "list" result) parent
      choose false =
          k3-IsUsable own result k3 parent
            (cloud_binding-IsUsable (k3_node x nested result) parent (codes "k3"))

  -- If hex digits are read as Python reads them, every binding that cloud_bindings gives, whatever the
  -- endpoint and the reply, has a MAC of twelve hex digits in normal form, an id above 0, an interval
  -- that is not 0, and the device that asked as its parent.
  pub cloud_bindings-IsUsable :
      (endpoint : Text) (payload : Json) (parent : ℤ)
      → All (Usable parent) (cloud_bindings x endpoint payload parent)
  unfolding cloud_bindings
  cloud_bindings-IsUsable endpoint null parent = tt
  cloud_bindings-IsUsable endpoint (flag b) parent = tt
  cloud_bindings-IsUsable endpoint (num n) parent = tt
  cloud_bindings-IsUsable endpoint (str t) parent = tt
  cloud_bindings-IsUsable endpoint (raw t) parent = tt
  cloud_bindings-IsUsable endpoint (arr items) parent = tt
  cloud_bindings-IsUsable endpoint (obj payload) parent =
      in_result-IsUsable endpoint (lookup_field "result" payload) parent
