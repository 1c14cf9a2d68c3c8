-- ===== src/Ota/Client/Script.antt =====
-- A server that answers a request: what `dns_gethostbyname` returns and what the polls deliver.
use pad_proxy.Base.{
  ℕ, suc, ◌+◌, ◌≤◌, ◌<◌, ◌≡◌, true, none, some, List, [], ◌∷◌, ◌++◌, Bytes, length,
}
use pad_proxy.Ota.Client.{
  DnsAnswer, dns_in_progress, dns_found, NetEvent, connected, received, dns_ok, Attempt, poll_fuel,
  timeout_us,
}

abbrev pub joined : List (List Bytes) → List Bytes
joined [] = []
joined (chain ∷ chains) = chain ++ joined chains

-- What the polls deliver, one list of events each. Behind the connection: the buffer chains in order and
-- then the close, with any number of polls between them that deliver nothing, and any number of chains in
-- one poll.
pub data Delivers : List (List Bytes) → List (List NetEvent) → Type 0 where
  quiet :
      {chains : List (List Bytes)} {s : List (List NetEvent)}
      → Delivers chains s
      → Delivers chains ([] ∷ s)
  gives :
      {chains : List (List Bytes)} {s : List (List NetEvent)} {b : List NetEvent}
      (chain : List Bytes)
      → Delivers chains (b ∷ s)
      → Delivers (chain ∷ chains) ((received (some chain) true ∷ b) ∷ s)
  closes : Delivers [] ((received none true ∷ []) ∷ [])

-- From the call of `altcp_connect` on: the connection comes after any number of polls.
pub data Connects : List (List Bytes) → List (List NetEvent) → Type 0 where
  unconnected :
      {chains : List (List Bytes)} {s : List (List NetEvent)}
      → Connects chains s
      → Connects chains ([] ∷ s)
  connects :
      {chains : List (List Bytes)} {s : List (List NetEvent)} {b : List NetEvent}
      → Delivers chains (b ∷ s)
      → Connects chains ((connected true true ∷ b) ∷ s)

-- From the call of `dns_gethostbyname` on: the name is known at once, or its address comes after any number
-- of polls.
pub data Resolves : DnsAnswer → List (List Bytes) → List (List NetEvent) → Type 0 where
  cached :
      {chains : List (List Bytes)} {s : List (List NetEvent)}
      → Connects chains s
      → Resolves dns_ok chains s
  unresolved :
      {chains : List (List Bytes)} {s : List (List NetEvent)}
      → Resolves dns_in_progress chains s
      → Resolves dns_in_progress chains ([] ∷ s)
  resolves :
      {chains : List (List Bytes)} {s : List (List NetEvent)}
      → Connects chains s
      → Resolves dns_in_progress chains ((dns_found true ∷ []) ∷ s)

-- The polls from the i-th on.
abbrev pub Polls : Attempt → ℕ → List (List NetEvent) → Type 0
Polls a i [] = Unit
Polls a i (b ∷ s) = (a.polls i ≡ b) × (a.clock i < timeout_us) × Polls a (suc i) s

-- Everything succeeds, and the answer comes in time.
pub record Serves (a : Attempt) (chains : List (List Bytes)) : Type 0 where
  pub tls : a.tls_ok ≡ true
  pub has_pcb : a.pcb_ok ≡ true
  pub connects_ok : a.connect_ok ≡ true
  pub script : List (List NetEvent)
  pub answer : Resolves a.dns chains script
  pub polls : Polls a 0 script
  pub few : length script + 2 ≤ poll_fuel
