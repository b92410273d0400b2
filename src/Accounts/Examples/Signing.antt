-- ===== src/Accounts/Examples/Signing.antt =====
-- A signer that meets the laws: the token is the time and the fields, each closed by a zero.
use fxjournal.Prelude.{
  ℕ, zero, suc, ◌≡◌, ◌∙◌, refl, sym, ap, ◌≤◌, ◌+◌, Bool, true, false, ◌&&◌, Option, none, some, [],
  ◌∷◌, leb, if◌then◌else◌, arith, Option-cases, inl, inr,
}
use fxjournal.Prelude.Text.{Text}
use fxjournal.Accounts.Tokens.{Payload, Signer, SignerLaws}

abbrev put : Text → Text → Text
put [] rest = 0 ∷ rest
put (c ∷ t) rest = suc c ∷ put t rest

abbrev push : ℕ → Option (Text × Text) → Option (Text × Text)
push c none = none
push c (some (t, rest)) = some (c ∷ t, rest)

abbrev get : Text → Option (Text × Text)
get [] = none
get (zero ∷ rest) = some ([], rest)
get (suc c ∷ rest) = push c (get rest)

get-put : (t rest : Text) → get (put t rest) ≡ some (t, rest)
get-put [] rest = refl
get-put (c ∷ t) rest = rw (get-put t rest) refl

not_none : {A : Type 0} {a : A} → none ≡ some a → ⊥
not_none h = cc

abbrev joined : Option (Text × Text) → Text
joined none = []
joined (some (t, rest)) = put t rest

put-get : (x t rest : Text) → get x ≡ some (t, rest) → x ≡ put t rest
put-get [] t rest h = absurd (not_none h)
put-get (zero ∷ x) t rest h = ap joined h
put-get (suc c ∷ x) t rest h = elim (Option-cases (get x)) [
  | inl e ↦ absurd (not_none (sym (ap (push c) e) ∙ h))
  | inr ((t', rest'), e) ↦
      ap (λ (y : Text). suc c ∷ y) (put-get x t' rest' e) ∙ ap joined (sym (ap (push c) e) ∙ h)
]

abbrev write : Payload → Text
write p = put p.purpose (put p.email (put p.reset_nonce (put p.registration_id [])))

abbrev fourth : Text → Text → Text → Option (Text × Text) → Option Payload
fourth a b c none = none
fourth a b c (some (d, [])) =
    some (record { purpose = a; email = b; reset_nonce = c; registration_id = d })
fourth a b c (some (d, _ ∷ _)) = none

abbrev third : Text → Text → Option (Text × Text) → Option Payload
third a b none = none
third a b (some (c, x)) = fourth a b c (get x)

abbrev second : Text → Option (Text × Text) → Option Payload
second a none = none
second a (some (b, x)) = third a b (get x)

abbrev first : Option (Text × Text) → Option Payload
first none = none
first (some (a, x)) = second a (get x)

fourth_made :
    (a b c x : Text) (p : Payload) (o : Option (Text × Text))
    → get x ≡ o
    → fourth a b c o ≡ some p
    → put a (put b (put c x)) ≡ write p
fourth_made a b c x p none e h = absurd (not_none h)
fourth_made a b c x p (some (d, [])) e h =
    ap (λ (y : Text). put a (put b (put c y))) (put-get x d [] e) ∙ ap written h
  where
    written : Option Payload → Text
    written none = []
    written (some q) = write q
fourth_made a b c x p (some (d, _ ∷ _)) e h = absurd (not_none h)

third_made :
    (a b x : Text) (p : Payload) (o : Option (Text × Text))
    → get x ≡ o
    → third a b o ≡ some p
    → put a (put b x) ≡ write p
third_made a b x p none e h = absurd (not_none h)
third_made a b x p (some (c, y)) e h =
    ap (λ (z : Text). put a (put b z)) (put-get x c y e) ∙ fourth_made a b c y p (get y) refl h

second_made :
    (a x : Text) (p : Payload) (o : Option (Text × Text))
    → get x ≡ o
    → second a o ≡ some p
    → put a x ≡ write p
second_made a x p none e h = absurd (not_none h)
second_made a x p (some (b, y)) e h =
    ap (put a) (put-get x b y e) ∙ third_made a b y p (get y) refl h

first_made :
    (x : Text) (p : Payload) (o : Option (Text × Text)) → get x ≡ o → first o ≡ some p → x ≡ write p
first_made x p none e h = absurd (not_none h)
first_made x p (some (a, y)) e h = put-get x a y e ∙ second_made a y p (get y) refl h

abbrev read : Text → Option Payload
read x = first (get x)

read-write : (p : Payload) → read (write p) ≡ some p
read-write p = rw (get-put p.purpose (put p.email (put p.reset_nonce (put p.registration_id [])))) (
    rw (get-put p.email (put p.reset_nonce (put p.registration_id []))) (
      rw (get-put p.reset_nonce (put p.registration_id []))
        (rw (get-put p.registration_id []) refl)))

abbrev loads_at : ℕ → ℕ → Text → Option Payload
loads_at now max_age [] = none
loads_at now max_age (t ∷ x) = if leb t now && leb now (t + max_age) then read x else none

abbrev pub signer : Signer
signer = record { dumps = λ t p. t ∷ write p; loads = loads_at }

fresh :
    (t now max_age : ℕ) → t ≤ now → now ≤ t + max_age → (leb t now && leb now (t + max_age)) ≡ true
fresh t now max_age h k = ground arith

loads_dumped :
    (t now max_age : ℕ) (p : Payload)
    → t ≤ now
    → now ≤ t + max_age
    → loads_at now max_age (t ∷ write p) ≡ some p
loads_dumped t now max_age p h k = rw (fresh t now max_age h k) (read-write p)

loads_made :
    (now max_age : ℕ) (token : Text) (p : Payload)
    → loads_at now max_age token ≡ some p
    → (t : ℕ) × (token ≡ t ∷ write p)
loads_made now max_age [] p h = absurd (not_none h)
loads_made now max_age (t ∷ x) p h = (
  t,
  ap (λ (y : Text). t ∷ y)
      (first_made x p (get x) refl (taken (leb t now && leb now (t + max_age)) h)),
)
  where
    taken : (b : Bool) → (if b then first (get x) else none) ≡ some p → first (get x) ≡ some p
    taken true k = k
    taken false k = absurd (not_none k)

pub signer_laws : SignerLaws signer
signer_laws = record { loads-dumps = loads_dumped; loads-made = loads_made }
