-- ===== src/Mqtt/Topics/Segments.antt =====
-- A topic as its segments between slashes.
use petkit_local.Prelude.{
  ℕ, ◌≡◌, ◌≢◌, refl, Bool, true, false, ◌&&◌, List, [], ◌∷◌, ◌++◌, Text, All, ◌==◌, arith, ap, ◌∙◌,
  if◌then◌else◌, Bool-cases, inl, inr, length, leb, drop, ◌-◌, contains,
}

abbrev pub slash : ℕ
slash = b'/'

-- One more character in front of the first segment.
pub push : ℕ → List Text → List Text
push c [] = (c ∷ []) ∷ []
push c (segment ∷ segments) = (c ∷ segment) ∷ segments

unfoldable pub split : Text → List Text
unfolding push
split [] = [] ∷ []
split (c ∷ t) = let rest = split t in if c == slash then [] ∷ rest else push c rest

unfoldable pub join : List Text → Text
join [] = []
join (segment ∷ []) = segment
join (segment ∷ next ∷ rest) = segment ++ (slash ∷ join (next ∷ rest))

unfoldable pub text_eq : Text → Text → Bool
text_eq [] [] = true
text_eq [] (d ∷ t) = false
text_eq (c ∷ s) [] = false
text_eq (c ∷ s) (d ∷ t) = c == d && text_eq s t

unfoldable pub is_nonempty : Text → Bool
is_nonempty [] = false
is_nonempty (c ∷ t) = true

-- t.endswith(suffix)
unfoldable pub ends_with : Text → Text → Bool
unfolding text_eq
ends_with suffix t =
    leb (length suffix) (length t) && text_eq (drop (length t - length suffix) t) suffix

-- The text without a newline at its end.
unfoldable pub drop_newline : Text → Text
drop_newline [] = []
drop_newline (c ∷ []) = if c == 10 then [] else c ∷ []
drop_newline (c ∷ d ∷ t) = c ∷ drop_newline (d ∷ t)

pub drop_newline_self : (t : Text) → contains t 10 ≡ false → drop_newline t ≡ t
unfolding drop_newline
drop_newline_self [] h = refl
drop_newline_self (c ∷ []) h = ground arith
drop_newline_self (c ∷ d ∷ t) h = ground (arith, drop_newline_self (d ∷ t))

abbrev pub Lacks : ℕ → Text → Type 0
Lacks a = All (λ c. c ≢ a)

pub split-segment : (s : Text) → Lacks slash s → split s ≡ s ∷ []
unfolding split push
split-segment [] h = refl
split-segment (c ∷ s) (ne, h) = ground (arith, split-segment s h)

pub split-append : (s t : Text) → Lacks slash s → split (s ++ (slash ∷ t)) ≡ s ∷ split t
unfolding split push
split-append [] t h = ground arith
split-append (c ∷ s) t (ne, h) = ground (arith, split-append s t h)

-- Splitting a join gives the segments back, if there is one and none has a slash.
pub split-join :
    (segments : List Text)
    → segments ≢ []
    → All (Lacks slash) segments
    → split (join segments) ≡ segments
unfolding join
split-join [] h _ = absurd (h refl)
split-join (s ∷ []) _ (h, _) = split-segment s h
split-join (s ∷ t ∷ rest) _ (h, hs) =
    split-append s (join (t ∷ rest)) h ∙ ap (λ l. s ∷ l) (split-join (t ∷ rest) (cc) hs)

push-spells :
    (c : ℕ) (segments : List Text) → segments ≢ [] → join (push c segments) ≡ c ∷ join segments
unfolding push join
push-spells c [] h = absurd (h refl)
push-spells c (s ∷ []) h = refl
push-spells c (s ∷ t ∷ rest) h = refl

pub split-ne-nil : (t : Text) → split t ≢ []
unfolding split push
split-ne-nil [] = cc
split-ne-nil (c ∷ t) = ground (arith, split-ne-nil t)

join-cons : (s : Text) (l : List Text) → l ≢ [] → join (s ∷ l) ≡ s ++ (slash ∷ join l)
unfolding join
join-cons s [] h = absurd (h refl)
join-cons s (t ∷ l) h = refl

-- Joining the segments of a text gives the text back.
pub join-split : (t : Text) → join (split t) ≡ t
unfolding split
join-split [] = unfold join in refl
join-split (c ∷ t) = ground (
  arith,
  join-cons [] (split t) (split-ne-nil t),
  push-spells c (split t) (split-ne-nil t),
  join-split t,
)

push-Lacks :
    (c : ℕ) (l : List Text) → c ≢ slash → All (Lacks slash) l → All (Lacks slash) (push c l)
unfolding push
push-Lacks c [] ne h = ((ne, tt), tt)
push-Lacks c (s ∷ l) ne (h, hs) = ((ne, h), hs)

-- No segment of a text has a slash.
pub split-Lacks : (t : Text) → All (Lacks slash) (split t)
unfolding split
split-Lacks [] = (tt, tt)
split-Lacks (c ∷ t) = elim (Bool-cases (c == slash)) [
  | inl at_slash ↦ rw at_slash (tt, split-Lacks t)
  | inr other ↦ rw other (push-Lacks c (split t) (ground arith) (split-Lacks t))
]

pub text_eq→eq : (s t : Text) → text_eq s t ≡ true → s ≡ t
unfolding text_eq
text_eq→eq [] [] h = refl
text_eq→eq [] (d ∷ t) h = absurd (cc)
text_eq→eq (c ∷ s) [] h = absurd (cc)
text_eq→eq (c ∷ s) (d ∷ t) h = ground (arith, text_eq→eq s t)

pub text_eq_self : (s : Text) → text_eq s s ≡ true
unfolding text_eq
text_eq_self [] = refl
text_eq_self (c ∷ s) = ground (arith, text_eq_self s)
