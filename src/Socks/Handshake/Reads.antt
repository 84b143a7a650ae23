-- ===== src/Socks/Handshake/Reads.antt =====
-- socks.go, `handleSocksConn`: what a step of the handshake leaves behind, and its reads.
use urnetwork_client.Base.{
  ℕ, ◌≤◌, ◌<◌, ◌≡◌, inl, inr, true, List, [], ◌∷◌, arith, Bytes, All, length, get_or, take, drop,
  ltb, ltb→lt, Bool-cases,
}
use urnetwork_client.Socks.Handshake.{Conn, End, closed, Step, goes, stops, M, ◌>>=◌, read_full}

abbrev pub hello : Bytes
hello = 5 ∷ 0 ∷ []

abbrev pub IsBytes : Bytes → Type 0
IsBytes = All (λ v. v < 256)

All-take : (n : ℕ) (xs : Bytes) → IsBytes xs → IsBytes (take n xs)
All-take ℕ.zero xs h = tt
All-take (ℕ.suc n) [] h = tt
All-take (ℕ.suc n) (x ∷ xs) h = (h.0, All-take n xs h.1)

All-drop : (n : ℕ) (xs : Bytes) → IsBytes xs → IsBytes (drop n xs)
All-drop ℕ.zero xs h = h
All-drop (ℕ.suc n) [] h = tt
All-drop (ℕ.suc n) (x ∷ xs) h = All-drop n xs h.1

pub get_or-lt : (xs : Bytes) (i : ℕ) → IsBytes xs → get_or xs i 0 < 256
get_or-lt [] i h = omega arith
get_or-lt (x ∷ xs) ℕ.zero h = h.0
get_or-lt (x ∷ xs) (ℕ.suc i) h = get_or-lt xs i h.1

-- In the handshake: so much sent, and the deadline not yet cleared.
pub record During (sent : List Bytes) (c : Conn) : Type 0 where
  pub has_sent : c.sent ≡ sent
  pub timed : c.deadline ≡ true
  pub bytes : IsBytes c.unread

-- What holds where a step goes on, and where it stops.
abbrev pub Post : {A : Type 0} → (A → Conn → Type 0) → (End → Conn → Type 0) → Step A → Type 0
Post P Q (goes a c) = P a c
Post P Q (stops e c) = Q e c

pub Post-bind :
    {A B : Type 0} (P : A → Conn → Type 0) (R : B → Conn → Type 0) (Q : End → Conn → Type 0)
    (m : M A) (f : A → M B) (c : Conn)
    → Post P Q (m c)
    → ((a : A) (d : Conn) → P a d → Post R Q (f a d))
    → Post R Q ((m >>= f) c)
Post-bind {A} {B} P R Q m f c h k = split (m c) h
  where
    split :
        (r : Step A) → Post P Q r → Post R Q (elim r [ goes a d ↦ f a d | stops e d ↦ stops e d ])
    split (goes a d) p = k a d p
    split (stops e d) q = q

abbrev pub Read : List Bytes → Bytes → Conn → Type 0
Read sent p d = IsBytes p × During sent d

-- A read of at most 262 bytes goes on with bytes, or closes with nothing more sent.
pub read_full-Post :
    (n : ℕ) (sent : List Bytes) (c : Conn) (R : End → Conn → Type 0)
    → n ≤ 262
    → During sent c
    → ((d : Conn) → During sent d → R closed d)
    → Post (Read sent) R (read_full n c)
unfolding read_full
read_full-Post n sent c R h g k = elim (Bool-cases (ltb 262 n)) [
  | inl e ↦ absurd (omega (arith, ltb→lt 262 n e))
  | inr e ↦ rw e (elim (Bool-cases (ltb (length c.unread) n)) [
    | inl f ↦ rw f (
        k (record c { unread = [] })
          (record { has_sent = g.has_sent; timed = g.timed; bytes = tt }))
    | inr f ↦ rw f (
      All-take n c.unread g.bytes,
      record { has_sent = g.has_sent; timed = g.timed; bytes = All-drop n c.unread g.bytes },
    )
  ])
]

abbrev pub Greeted : Conn → Type 0
Greeted = During (hello ∷ [])
