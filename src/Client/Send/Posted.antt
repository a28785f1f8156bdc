-- ===== src/Client/Send/Posted.antt =====
-- SendRawTransaction of client.go: what has gone to the node when it returns a hash.
use go_conflux_sdk.Base.{◌≡◌, ap, ◌∙◌, [], ◌∷◌, Bytes}
use go_conflux_sdk.Result.{ok}
use go_conflux_sdk.Exec.Gives.{continue_ok, wrap_ok}
use go_conflux_sdk.Ethereum.{Ethereum}
use go_conflux_sdk.Json.{Value, null, bool, num, str, arr, obj, as_string}
use go_conflux_sdk.Types.Address.{Hash}
use go_conflux_sdk.Client.Requester.{Requester, text}
use go_conflux_sdk.Client.Queries.{query, send_raw_transaction}

-- The call cfx_sendRawTransaction on the hex spelling of raw, and on nothing else, is answered by the hash.
abbrev pub Posted : {W : Type 0} → Ethereum → Requester W → Bytes → W → Hash → Type 0
Posted E Q raw w hash =
    (Q.call "cfx_sendRawTransaction" (text (E.hex_encode raw) ∷ []) w).0 ≡ ok (str hash)

as_string_ok : (v : Value) (hash : Hash) → as_string v ≡ ok hash → v ≡ str hash
unfolding as_string
as_string_ok (str t) hash e = cc
as_string_ok null hash e = absurd (cc e)
as_string_ok (bool b) hash e = absurd (cc e)
as_string_ok (num t) hash e = absurd (cc e)
as_string_ok (arr vs) hash e = absurd (cc e)
as_string_ok (obj fs) hash e = absurd (cc e)

pub send_raw_transaction-Posted :
    {W : Type 0} (E : Ethereum) (Q : Requester W) (raw : Bytes) (w : W) (hash : Hash)
    → (send_raw_transaction E Q raw w).0 ≡ ok hash
    → Posted E Q raw w hash
unfolding send_raw_transaction query
send_raw_transaction-Posted E Q raw w hash e =
    let (v, called, rest) = continue_ok _ _ _ hash e in
    wrap_ok _ _ v called ∙ ap (λ (u : Value). ok u) (as_string_ok v hash rest)
