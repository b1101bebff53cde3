-- ===== src/Uds/Session/Blocks.antt =====
-- The blocks of a transfer.
use diagnostic_vehicle_simul.Prelude.{
  ℕ, zero, suc, ◌+◌, ◌%◌, ◌≡◌, true, List, [], ◌∷◌, replicate, ◌++◌,
}
use diagnostic_vehicle_simul.Uds.Handler.{contains}
use diagnostic_vehicle_simul.Uds.Session.{Config, LiveState, serve}

-- TransferData with this counter and these bytes.
abbrev pub block : ℕ → List ℕ → List ℕ
block counter bytes = 0x36 ∷ counter ∷ bytes

-- The unit serves this service.
abbrev pub Serves : Config → ℕ → Type 0
Serves config sid = contains config.services sid ≡ true

-- The blocks of a transfer from this counter on, each as often as this many retransmissions of it
-- say, and the state and the responses when they are served in order.
unfoldable pub retransmit : Config → LiveState → ℕ → List ℕ → ℕ → LiveState × List (List ℕ)
retransmit config s c bytes zero = (s, [])
retransmit config s c bytes (suc times) =
    let (s', response) = serve config s (block c bytes) in
    let (s'', responses) = retransmit config s' c bytes times in (s'', response ∷ responses)

-- The payloads of a transfer with the number of times that each is sent again: the state after all
-- of them, and every response in order.
unfoldable pub transfer_blocks :
    Config → LiveState → ℕ → List (List ℕ × ℕ) → LiveState × List (List ℕ)
transfer_blocks config s c [] = (s, [])
transfer_blocks config s c ((bytes, again) ∷ rest) =
    let (s', responses) = retransmit config s c bytes (suc again) in
    let (s'', later) = transfer_blocks config s' ((c + 1) % 256) rest in (s'', responses ++ later)

-- Each block and each retransmission of it is acknowledged with its counter.
unfoldable pub acknowledgements : ℕ → List (List ℕ × ℕ) → List (List ℕ)
acknowledgements c [] = []
acknowledgements c ((bytes, again) ∷ rest) =
    replicate (suc again) (0x76 ∷ c ∷ []) ++ acknowledgements ((c + 1) % 256) rest
