-- ===== src/Origins/Localhost.antt =====
-- The regular expression for origins of this machine.
use orchestronic_be.Base.{
  ℕ, some, [], ◌∷◌, ◌++◌, ◌≡◌, ◌⊎◌, inl, inr, refl, arith, true, Bool-cases, Option-cases, All,
  ◌==◌,
}
use orchestronic_be.Base.Text.{Text, codes, split}
use orchestronic_be.Base.Decimal.{IsDigit, all_digits-IsDigit, IsDigit-all_digits}
use orchestronic_be.Env.{to_lower_ascii, strip, strip-++}
use orchestronic_be.Origins.{
  or_strip, is_port, after_scheme, after_host, is_localhost_origin, host_after_scheme,
  port_after_host,
}

-- An origin of this machine: http or https, localhost or 127.0.0.1, and perhaps a port in digits,
-- in small or capital letters.
pub record LocalhostOrigin (origin : Text) : Type 0 where
  pub scheme : Text
  pub host : Text
  pub port : Text
  pub spelled : to_lower_ascii origin ≡ scheme ++ (host ++ port)
  pub scheme_is : (scheme ≡ codes "http://") ⊎ (scheme ≡ codes "https://")
  pub host_is : (host ≡ codes "127.0.0.1") ⊎ (host ≡ codes "localhost")
  pub port_is :
      (port ≡ []) ⊎ ((d : ℕ) × (ds : Text) × (port ≡ b':' ∷ d ∷ ds) × All IsDigit (d ∷ ds))

or_strip-cases :
    (p q s t : Text)
    → or_strip p (strip q s) s ≡ some t
    → (prefix : Text) × (s ≡ prefix ++ t) × ((prefix ≡ p) ⊎ (prefix ≡ q))
or_strip-cases p q s t e = elim (Option-cases (strip q s)) [
  | inl missed ↦ (p, strip-++ p s t (ground arith), inl refl)
  | inr (u, found) ↦ (q, strip-++ q s t (ground arith), inr refl)
]

is_port-cases :
    (s : Text)
    → is_port s ≡ true
    → (s ≡ []) ⊎ ((d : ℕ) × (ds : Text) × (s ≡ b':' ∷ d ∷ ds) × All IsDigit (d ∷ ds))
is_port-cases [] e = inl refl
is_port-cases (c ∷ []) e = absurd (ground arith)
is_port-cases (c ∷ d ∷ ds) e = elim (Bool-cases (c == b':')) [
  | inl q ↦ inr (d, ds, ground arith, all_digits-IsDigit (d ∷ ds) (ground arith))
  | inr q ↦ absurd (ground arith)
]

after_host-cases :
    (s : Text)
    → port_after_host (after_host s) ≡ true
    → (host port : Text) × (s ≡ host ++ port)
      × ((host ≡ codes "127.0.0.1") ⊎ (host ≡ codes "localhost"))
      × (is_port port ≡ true)
unfolding after_host
after_host-cases s e = elim (Option-cases (after_host s)) [
  | inl missed ↦ absurd (ground arith)
  | inr (port, found) ↦
      let (host, same, is) = or_strip-cases (codes "127.0.0.1") (codes "localhost") s port found in
      (host, port, same, is, ground arith)
]

after_scheme-cases :
    (s : Text)
    → host_after_scheme (after_scheme s) ≡ true
    → (scheme rest : Text) × (s ≡ scheme ++ rest)
      × ((scheme ≡ codes "http://") ⊎ (scheme ≡ codes "https://"))
      × (port_after_host (after_host rest) ≡ true)
unfolding after_scheme
after_scheme-cases s e = elim (Option-cases (after_scheme s)) [
  | inl missed ↦ absurd (ground arith)
  | inr (rest, found) ↦
      let (scheme, same, is) = or_strip-cases (codes "http://") (codes "https://") s rest found in
      (scheme, rest, same, is, ground arith)
]

pub is_localhost_origin-LocalhostOrigin :
    (o : Text) → is_localhost_origin o ≡ true → LocalhostOrigin o
unfolding is_localhost_origin
is_localhost_origin-LocalhostOrigin o e =
    let (scheme, rest, same, scheme_is, after) = after_scheme-cases (to_lower_ascii o) e in
    let (host, port, split, host_is, numbered) = after_host-cases rest after in
    record {
      scheme = scheme;
      host = host;
      port = port;
      spelled = rw same (rw split refl);
      scheme_is = scheme_is;
      host_is = host_is;
      port_is = is_port-cases port numbered;
    }

port-is_port :
    (s : Text)
    → (s ≡ []) ⊎ ((d : ℕ) × (ds : Text) × (s ≡ b':' ∷ d ∷ ds) × All IsDigit (d ∷ ds))
    → is_port s ≡ true
port-is_port s (inl e) = rw e refl
port-is_port s (inr (d, ds, e, h)) = rw e (ground (arith, IsDigit-all_digits (d ∷ ds) h))

host-after_host :
    (host port : Text)
    → (host ≡ codes "127.0.0.1") ⊎ (host ≡ codes "localhost")
    → after_host (host ++ port) ≡ some port
unfolding after_host strip
host-after_host host port (inl e) = rw e refl
host-after_host host port (inr e) = rw e refl

scheme-after_scheme :
    (scheme rest : Text)
    → (scheme ≡ codes "http://") ⊎ (scheme ≡ codes "https://")
    → after_scheme (scheme ++ rest) ≡ some rest
unfolding after_scheme strip
scheme-after_scheme scheme rest (inl e) = rw e refl
scheme-after_scheme scheme rest (inr e) = rw e refl

pub LocalhostOrigin-is_localhost_origin :
    (o : Text) → LocalhostOrigin o → is_localhost_origin o ≡ true
unfolding is_localhost_origin
LocalhostOrigin-is_localhost_origin o l = rw l.spelled (
    rw
      (
        scheme-after_scheme l.scheme (l.host ++ l.port) l.scheme_is,
        host-after_host l.host l.port l.host_is,
      )
      (port-is_port l.port l.port_is))
