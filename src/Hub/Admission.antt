-- ===== src/Hub/Admission.antt =====
-- internal/clientlink/hub.go, HandleWS: which connections are let in.
use wakehub.Base.{
  ℕ, String, true, false, subst, Option, none, some, eq_iff, lookup, lookup-insert, ◌≡◌, ◌≢◌, refl,
  Bool-cases, ◌⊎◌, ◌↔◌, inl, inr, arith,
}
use wakehub.Protocol.{Hello, Reply, hello_ok}
use wakehub.Hub.{entry_of, Hub, greet}
use wakehub.Hub.Sessions.{admits}

-- A hello that the hub with this token accepts.
abbrev pub IsAccepted : String → Hello → Type 0
IsAccepted token hello =
    (hello.type ≡ "hello") × (hello.key ≢ "") × ((token ≡ "") ⊎ (hello.token ≡ token))

admits-IsAccepted :
    (token : String) (hello : Hello) → (admits token hello ≡ true) ↔ IsAccepted token hello
admits-IsAccepted token hello = ground (
  arith,
  eq_iff hello.type "hello",
  eq_iff hello.key "",
  eq_iff token "",
  eq_iff hello.token token,
)

greet_of_admits :
    (h : Hub) (conn : ℕ) (remote : String) (now : ℕ) (hello : Hello)
    → admits h.token hello ≡ true
    → ((greet h conn remote now (some hello)).1 ≡ hello_ok)
      × (lookup hello.key (greet h conn remote now (some hello)).0.clients
          ≡ some (entry_of conn remote now hello))
unfolding greet
greet_of_admits h conn remote now hello admitted =
    let entered = lookup-insert hello.key hello.key (entry_of conn remote now hello) h.clients in
    (ground arith, ground (arith, entered, eq_iff hello.key hello.key))

greet_of_refused :
    (h : Hub) (conn : ℕ) (remote : String) (now : ℕ) (hello : Hello)
    → admits h.token hello ≡ false
    → ((greet h conn remote now (some hello)).1 ≢ hello_ok)
      × ((greet h conn remote now (some hello)).0 ≡ h)
unfolding greet
greet_of_refused h conn remote now hello shut = (ground arith, ground arith)

some_inj : (a b : Hello) → some b ≡ some a → a ≡ b
some_inj a b e = cc

-- The answer lets the connection in and the hub has it under its key, or it does neither.
abbrev pub IsAnswered : Hub → ℕ → String → ℕ → Option Hello → Hub × Reply → Type 0
IsAnswered h conn remote now first answer =
    ((hello : Hello) × (first ≡ some hello)
      × IsAccepted h.token hello
      × (answer.1 ≡ hello_ok)
      × (lookup hello.key answer.0.clients ≡ some (entry_of conn remote now hello)))
    ⊎ (((hello : Hello) → first ≡ some hello → ¬ IsAccepted h.token hello)
        × (answer.1 ≢ hello_ok)
        × (answer.0 ≡ h))

-- Whether the first message of a connection can be read as a hello or not: where it is a hello with
-- a key and, where the hub has a token, with that token, it is answered with hello_ok and the hub
-- has the connection, with what the hello says, under its key. Any other one has another answer and
-- leaves the hub as it was.
pub greet-hello_ok_iff :
    (h : Hub) (conn : ℕ) (remote : String) (now : ℕ) (first : Option Hello)
    → IsAnswered h conn remote now first (greet h conn remote now first)
unfolding greet
greet-hello_ok_iff h conn remote now none = inr (λ hello same. cc, ground arith, refl)
greet-hello_ok_iff h conn remote now (some hello) = elim (Bool-cases (admits h.token hello)) [
  | inl admitted ↦
      let (answered, entered) = greet_of_admits h conn remote now hello admitted in
      inl (hello, refl, (admits-IsAccepted h.token hello).0 admitted, answered, entered)
  | inr shut ↦
      let (answered, same) = greet_of_refused h conn remote now hello shut in
      let not_this : ¬ IsAccepted h.token hello =
        λ accepted. let open_to = (admits-IsAccepted h.token hello).1 accepted in cc in
      inr (
        λ other e accepted. not_this (subst (IsAccepted h.token) (some_inj other hello e) accepted),
        answered,
        same,
      )
]
