-- ===== src/Endpoint/Announced.antt =====
-- The endpoints that a server announces, and what a client reads of them.
use Prim.Native.Char.{char, code}
use Prim.Native.String.{[], ◌∷◌, ◌++◌}
use Prim.Native.String.append
use distributed_replicated_c.Prelude.{
  ℕ, ◌≤◌, ◌<◌, ◌^◌, ◌≡◌, ◌≢◌, refl, ap, ◌∙◌, ℤ, pos, negsuc, Bool, true, false, ltb-false,
  eqb_false, ltb, ◌||◌, if◌then◌else◌, some, String, arith,
}
use distributed_replicated_c.Result.{ok-injective, Exception, Result, ok, throws, >>=-eq-ok}
use distributed_replicated_c.Text.{split_at, to_string, stoi}
use distributed_replicated_c.Text.Numbers.{stoi-to_string}
use distributed_replicated_c.Endpoint.{split_endpoint, checked_port, parse_endpoint, endpoint_of}

-- No character of the text is `c`.
abbrev pub Lacks : ℕ → String → Type 0
Lacks c [] = Unit {0}
Lacks c (x ∷ s) = (code x ≢ c) × Lacks c s

split_at_first :
    (host rest : String) → Lacks 58 host → split_at 58 (host ++ (":" ++ rest)) ≡ some (host, rest)
unfolding split_at
split_at_first [] rest h =
    rw (append.nil (":" ++ rest), append.cons (char 58 tt) [] rest, append.nil rest) refl
split_at_first (x ∷ host) rest (h, k) =
    rw (append.cons x host (":" ++ rest), eqb_false (code x) 58 h, split_at_first host rest k) refl

-- The endpoint that a server makes of its address and a port from 1 on is read by a client as that
-- address and that port, when the address has no ':'.
pub parse_endpoint-endpoint_of :
    (host : String) (port : ℕ)
    → Lacks 58 host
    → 1 ≤ port
    → port < 2 ^ 16
    → parse_endpoint (endpoint_of host port) ≡ ok (host, port)
unfolding parse_endpoint split_endpoint checked_port
parse_endpoint-endpoint_of host port h low high =
    rw
      (
        parse_endpoint,
        split_endpoint,
        split_at_first host (to_string (pos port)) h,
        stoi-to_string (pos port) (omega arith),
        ltb-false port 1 low,
        ltb-false 65535 port (omega arith),
      )
      refl

throws_not_ok : {A : Type 0} {e : Exception} {a : A} → ◌≢◌ {A = Result A} (throws e) (ok a)
throws_not_ok h = cc

-- A guard that did not throw.
if_throws :
    {A : Type 0} (e : Exception) (a : A) {b : A} (t : Bool)
    → ◌≡◌ {A = Result A} (if t then throws e else ok a) (ok b)
    → (t ≡ false) × (a ≡ b)
if_throws e a true h = absurd (throws_not_ok h)
if_throws e a false h = (refl, ok-injective h)

checked_port-range :
    (host : String) (z : ℤ) (port : ℕ)
    → checked_port host z ≡ ok port
    → (z ≡ pos port) × (1 ≤ port) × (port < 2 ^ 16)
unfolding checked_port
checked_port-range host (negsuc n) port h = absurd (throws_not_ok h)
checked_port-range host (pos n) port h =
    let (inside, same) = if_throws _ _ (ltb n 1 || ltb 65535 n) h in
    (ap pos same, ground arith, ground arith)

-- A text that is read as an endpoint gives the number behind its first ':' as the port, and the
-- number lies from 1 to 65535.
pub parse_endpoint-InRange :
    (endpoint host : String) (port : ℕ)
    → parse_endpoint endpoint ≡ ok (host, port)
    → (1 ≤ port)
      × (port < 2 ^ 16)
      × (stoi (split_endpoint endpoint).1 ≡ ok (pos port))
      × ((split_endpoint endpoint).0 ≡ host)
unfolding parse_endpoint
parse_endpoint-InRange endpoint host port h =
    let (z, e, k) = >>=-eq-ok (stoi (split_endpoint endpoint).1) _ h in
    let (p, f, r) = >>=-eq-ok (checked_port (split_endpoint endpoint).0 z) _ k in
    let (a, b, c) = checked_port-range (split_endpoint endpoint).0 z p f in
    let same : p ≡ port = ap (λ q. q.1) (ok-injective r) in
    (
      omega (arith, same, b),
      omega (arith, same, c),
      e ∙ ap ok (a ∙ ap pos same),
      ap (λ q. q.0) (ok-injective r),
    )
