-- ===== src/Proxy/Fetch.antt =====
-- What an asynchronous function of src/proxy.rs does to the network: it looks up a host or sends a
-- request, and goes on with the answer. All answers are open.
pub mod Holds
use ruskery.Common.{ℕ, ◌+◌, Option, none, some, List, Str}
use ruskery.Error.{Error, Result, ok, err}
use ruskery.Proxy.{IpAddr, Request, Reply}

pub data Fetch {ℓ} (A : Type ℓ) : Type ℓ where
  done : A → Fetch A
  fail : Error → Fetch A
  -- `tokio::net::lookup_host`
  lookup : Str → ℕ → (Option (List IpAddr) → Fetch A) → Fetch A
  -- `CLIENT.get(…).send()`
  request : Request → (Option Reply → Fetch A) → Fetch A

-- `.await?`
infixl 5 ◌>>=◌ ◌>>◌
abbrev pub ◌>>=◌ {ℓ κ} : {A : Type ℓ} {B : Type κ} → Fetch A → (A → Fetch B) → Fetch B
done a >>= k = k a
fail e >>= k = fail e
lookup host port answer >>= k = lookup host port (λ ips. answer ips >>= k)
request r answer >>= k = request r (λ reply. answer reply >>= k)

abbrev pub ◌>>◌ {κ} : {B : Type κ} → Fetch (Unit {0}) → Fetch B → Fetch B
t >> k = t >>= (λ _. k)

abbrev pub lift {ℓ} : {A : Type ℓ} → Result A → Fetch A
lift (ok a) = done a
lift (err e) = fail e

-- A resolver and a client, with what they remember.
pub record Net (N : Type 0) : Type 0 where
  pub resolve : Str → ℕ → N → Option (List IpAddr) × N
  pub send : Request → N → Option Reply × N

unfoldable pub run {ℓ} : {A : Type ℓ} {N : Type 0} → Net N → Fetch A → N → Result A × N
run net (done a) n = (ok a, n)
run net (fail e) n = (err e, n)
run net (lookup host port answer) n =
    let (ips, n') = net.resolve host port n in run net (answer ips) n'
run net (request r answer) n = let (reply, n') = net.send r n in run net (answer reply) n'
