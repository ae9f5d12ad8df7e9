-- ===== src/Upstream/Steps.antt =====
-- The steps of the client, and what it knows of whose channel is whose.
use mcp_proxy.Prelude.{
  All, Dict, String, [], arith, eq_iff, insert, length, lookup, some, ℕ, ◌++◌, ◌≡◌, ◌∷◌, ◌⊎◌,
}
use mcp_proxy.Prelude.Maps.{lookup-insert}
use mcp_proxy.Upstream.Channels.{AllOwn, OwnedBy}
use mcp_proxy.Upstream.{
  Client, Decoder, HttpStatus, connect, disconnect, handle_disconnect, handle_event, new_client,
  register, release,
}

pub All_map :
    {P Q : String × ℕ → Type 0} (calls : Dict ℕ)
    → ((e : String × ℕ) → P e → Q e)
    → All P calls
    → All Q calls
All_map [] f h = tt
All_map (e ∷ calls) f h = (f e h.0, All_map calls f h.1)

pub All_middle :
    (P : String × ℕ → Type 0) (before : Dict ℕ) (e : String × ℕ) (after : Dict ℕ)
    → All P (before ++ e ∷ after)
    → All P (before ++ after)
All_middle P [] e after h = h.1
All_middle P (x ∷ before) e after h = (h.0, All_middle P before e after h.1)

pub All_at :
    (P : String × ℕ → Type 0) (before : Dict ℕ) (e : String × ℕ) (after : Dict ℕ)
    → All P (before ++ e ∷ after)
    → P e
All_at P [] e after h = h.0
All_at P (x ∷ before) e after h = All_at P before e after h.1

pub lookup-insert_cases :
    (j id : String) (n a : ℕ) (d : Dict ℕ)
    → lookup j (insert id n d) ≡ some a
    → ((id ≡ j) × (n ≡ a)) ⊎ (lookup j d ≡ some a)
lookup-insert_cases j id n a d h = ground (arith, lookup-insert id j n d, eq_iff id j)

module _ (request_id : Decoder) where
  -- One step of one goroutine. The second index lists the calls of `Send` between their entry in
  -- `pending` and their end.
  pub data Step (c : Client) (calls : Dict ℕ) : Client → Dict ℕ → Type 0 where
    registered : (id : String) → Step c calls (register id c) ((id, length c.channels) ∷ calls)
    evented :
        (event bytes : String) (d : Client)
        → handle_event request_id event bytes c ≡ some d
        → Step c calls d calls
    lost : Step c calls (handle_disconnect c) calls
    cut : (d : Client) → disconnect c ≡ some d → Step c calls d calls
    connected : (status : HttpStatus) → Step c calls (connect status c).1 calls
    ended :
        (before : Dict ℕ) (id : String) (a : ℕ) (after : Dict ℕ)
        → calls ≡ before ++ (id, a) ∷ after
        → Step c calls (release id c) (before ++ after)

  pub data Reach (url : String) : Client → Dict ℕ → Type 0 where
    here : Reach url (new_client url) []
    next :
        {c d : Client} {calls calls' : Dict ℕ}
        → Reach url c calls
        → Step c calls d calls'
        → Reach url d calls'

  pub record IsMatched (c : Client) (calls : Dict ℕ) : Type 0 where
    pub own : AllOwn request_id c.channels
    pub pending_own :
        (id : String) (a : ℕ) → lookup id c.pending ≡ some a → OwnedBy c.channels (id, a)
    pub calls_own : All (OwnedBy c.channels) calls

  -- A change of the channels that keeps what is known of them, and no new entry.
  pub same_entries :
      (c d : Client) (calls : Dict ℕ)
      → AllOwn request_id d.channels
      → ((e : String × ℕ) → OwnedBy c.channels e → OwnedBy d.channels e)
      → ((id : String) (a : ℕ) → lookup id d.pending ≡ some a → lookup id c.pending ≡ some a)
      → IsMatched c calls
      → IsMatched d calls
  same_entries c d calls own keep fewer m = record {
    own = own;
    pending_own = λ id a e. keep (id, a) (m.pending_own id a (fewer id a e));
    calls_own = All_map calls keep m.calls_own;
  }
