-- ===== src/Net/Transport/Switch.antt =====
-- Which peers the switch of the HTTP transport cuts off, after blocks and unblocks.
use agent_memory.Prelude.{
  ◌≡◌, refl, Bool, true, false, not, ◌&&◌, ◌||◌, List, [], ◌∷◌, Option, none, ◌==◌, if◌then◌else◌,
  Text, arith, elem, eq_text, length,
}
use agent_memory.Prelude.Order.{list_ord}
use agent_memory.Map.{lookup, insert, delete}
use agent_memory.Map.Lookup.{lookup-insert, lookup-delete}
use agent_memory.Types.Value.{Value}
use agent_memory.Net.Transport.{
  HttpTransport, set_deny, block, unblock, is_blocked, url, Wire, HttpRequest, HttpResponse,
  exchange, replicate_write, replicate_read, get_digest, replay_hint,
}

is_blocked-set_deny :
    (ids : List Text) (deny : Bool) (t : HttpTransport) (j : Text)
    → is_blocked j (set_deny ids deny t) ≡ (if elem j ids then deny else is_blocked j t)
unfolding is_blocked set_deny eq_text
is_blocked-set_deny [] deny t j = refl
is_blocked-set_deny (id ∷ ids) true t j = ground (
  arith,
  is_blocked-set_deny ids true (record t { deny = insert id true t.deny }) j,
  lookup-insert id j true t.deny,
)
is_blocked-set_deny (id ∷ ids) false t j = ground (
  arith,
  is_blocked-set_deny ids false (record t { deny = delete id t.deny }) j,
  lookup-delete id j t.deny,
)

-- After a block the named peers are blocked, and those that were.
pub is_blocked-block :
    (ids : List Text) (t : HttpTransport) (j : Text)
    → is_blocked j (block ids t) ≡ (elem j ids || is_blocked j t)
unfolding block
is_blocked-block ids t j = ground (arith, is_blocked-set_deny ids true t j)

-- An unblock with no peer named unblocks all.
pub is_blocked-unblock :
    (ids : List Text) (t : HttpTransport) (j : Text)
    → is_blocked j (unblock ids t) ≡ (not (elem j ids || length ids == 0) && is_blocked j t)
unfolding unblock is_blocked lookup
is_blocked-unblock [] t j = refl
is_blocked-unblock (id ∷ ids) t j = ground (arith, is_blocked-set_deny (id ∷ ids) false t j)

url_blocked : (to path : Text) (t : HttpTransport) → is_blocked to t ≡ true → url to path t ≡ none
unfolding url
url_blocked to path t h = ground (arith, h)

module _ {S : Type 0} ⦃wire : Wire⦄ (client_do : HttpRequest → S → S × Option HttpResponse) where
  exchange_blocked :
      (to path method body : Text) (t : HttpTransport) (s : S)
      → is_blocked to t ≡ true
      → exchange client_do to path method body t s ≡ (s, none)
  unfolding exchange
  exchange_blocked to path method body t s h = rw (url_blocked to path t h, exchange) refl

  -- After a block of peers every call of the HTTP transport to one of them fails without a request,
  -- so that nothing changes.
  pub blocked_calls :
      (ids : List Text) (t : HttpTransport) (to key : Text) (val : Value) (s : S)
      → elem to ids ≡ true
      → (replicate_write client_do to key val (block ids t) s ≡ (s, false))
        × (replay_hint client_do to key val (block ids t) s ≡ (s, false))
        × (replicate_read client_do to key (block ids t) s ≡ (s, none))
        × (get_digest client_do to (block ids t) s ≡ (s, none))
  unfolding replicate_write replay_hint replicate_read get_digest
  blocked_calls ids t to key val s h =
      let b : is_blocked to (block ids t) ≡ true = ground (arith, is_blocked-block ids t to) in
      (
        rw (exchange_blocked to _ _ _ (block ids t) s b) refl,
        rw (exchange_blocked to _ _ _ (block ids t) s b) refl,
        rw (exchange_blocked to _ _ _ (block ids t) s b) refl,
        rw (exchange_blocked to _ _ _ (block ids t) s b) refl,
      )
