-- ===== src/Media/Retention/Entries.antt =====
-- Tests that all of the entries of a scan pass, through the steps of a sweep.
use petkit_local.Prelude.{
  ℕ, zero, suc, ◌≡◌, Bool, true, some, List, [], ◌∷◌, get_elem?, Bool-cases, inl, inr, All,
}
use petkit_local.Events.Sessions.Groups.{insert_by, sort_by}
use petkit_local.Media.Retention.{Entry, is_in_flight, spare}

-- Every entry passes a test.
abbrev pub AllTrue : (Entry → Bool) → List Entry → Type 0
AllTrue test = All (λ e. test e ≡ true)

-- What passes a test for all of the entries passes it for the one at an index.
pub get_elem?-AllTrue :
    (test : Entry → Bool) (entries : List Entry) (i : ℕ) (e : Entry)
    → get_elem? entries i ≡ some e
    → AllTrue test entries
    → test e ≡ true
get_elem?-AllTrue test [] i e h a = absurd (cc)
get_elem?-AllTrue test (x ∷ entries) zero e h (p, a) = cc
get_elem?-AllTrue test (x ∷ entries) (suc i) e h (p, a) = get_elem?-AllTrue test entries i e h a

pub AllTrue-insert_by :
    (test : Entry → Bool) (after : Entry → Entry → Bool) (e : Entry) (entries : List Entry)
    → test e ≡ true
    → AllTrue test entries
    → AllTrue test (insert_by after e entries)
unfolding insert_by
AllTrue-insert_by test after e [] p a = (p, tt)
AllTrue-insert_by test after e (x ∷ entries) p (q, a) = elim (Bool-cases (after e x)) [
  | inl t ↦ rw t ((q, AllTrue-insert_by test after e entries p a))
  | inr f ↦ rw f ((p, (q, a)))
]

pub AllTrue-sort_by :
    (test : Entry → Bool) (after : Entry → Entry → Bool) (entries : List Entry)
    → AllTrue test entries
    → AllTrue test (sort_by after entries)
unfolding sort_by
AllTrue-sort_by test after [] a = tt
AllTrue-sort_by test after (e ∷ entries) (p, a) =
    AllTrue-insert_by test after e (sort_by after entries) p (AllTrue-sort_by test after entries a)

pub AllTrue-spare :
    (test : Entry → Bool) (min_age now : ℕ) (e : Entry) (rest : List Entry)
    → test e ≡ true
    → AllTrue test rest
    → AllTrue test (spare min_age now e rest)
unfolding spare
AllTrue-spare test min_age now e rest p a = elim (Bool-cases (is_in_flight min_age now e)) [
  | inl t ↦ rw t a
  | inr f ↦ rw f ((p, a))
]
