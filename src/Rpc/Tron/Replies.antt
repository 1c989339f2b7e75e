-- ===== src/Rpc/Tron/Replies.antt =====
-- What the reply to a query of a TRC20 balance says: `callRPC` and `getTRC20Balance` of
-- common/chain/tron/client.go.
use walletus.Base.{
  ℕ, String, Option, none, some, ◌∷◌, ◌++◌, false, Result, ok, err, ◌≡◌, refl, ap, sym, ◌∙◌, arith,
  inl, inr, ◌>>=◌, Bool-cases, ◌==◌, nat_eq,
}
use walletus.Base.Decimal.{Bytes, codes}
use walletus.Base.Int.{ℤ, pos}
use walletus.Chain.Gateway.{TokenBalance}
use walletus.Chain.Json.{Json, null, bool, num, str, arr, obj, Fields, get}
use mathlib.Core.Path.{subst}
use walletus.Rpc.Nodes.{RpcError, HttpClient, create_request}
use walletus.Rpc.Tron.Client.{or_zero, token_or_zero}
use walletus.Rpc.Tron.Words.{Shows, constant_result-Shows}
use walletus.Rpc.Tron.{
  TronEnv, Params, Response, trigger_constant_contract, check_error, reply_of, read_reply, exchange,
  call_rpc, constant_result, encode_balance_of_parameter, balance_of_contract, get_trc20_balance,
  trc20, wallet_triggerconstantcontract,
}

check_error-ok : (f resp : Fields) (v : Json) → check_error f v ≡ ok resp → (f ≡ resp) × (v ≡ null)
unfolding check_error
check_error-ok f resp null h = (ground (arith, h), refl)
check_error-ok f resp (bool b) h = absurd (ground (arith, h))
check_error-ok f resp (num n) h = absurd (ground (arith, h))
check_error-ok f resp (str s) h = absurd (ground (arith, h))
check_error-ok f resp (arr xs) h = absurd (ground (arith, h))
check_error-ok f resp (obj m) h = absurd (ground (arith, h))

module _ (e : TronEnv) (cli : HttpClient) (token owner : String) where
  open e use {World, new_request, send, unmarshal}

  -- The node has replied to the query of the contract `token` for `owner`: with status 200, and with
  -- an object `resp` that has no "Error".
  pub record IsReply (w : World) (resp : Fields) : Type 0 where
    pub parameter : Bytes
    pub body : String
    pub encoded : encode_balance_of_parameter e owner ≡ ok parameter
    pub made :
        new_request
          (cli.base_url ++ b'/' ∷ codes "wallet/triggerconstantcontract")
          (trigger_constant_contract owner token parameter)
        ≡ none
    pub sent :
        (send
          (cli.base_url ++ b'/' ∷ codes "wallet/triggerconstantcontract")
          (trigger_constant_contract owner token parameter)
          w).0
        ≡ ok (record { status = 200; body = ok body })
    pub decoded : unmarshal body ≡ ok resp
    pub no_error : get "Error" resp ≡ null

  -- A balance of the token: the amount that the reply shows, or 0 if there is no such reply.
  pub data IsToken (b : TokenBalance) : Type 0 where
    replied :
        (w : World) (resp : Fields) (amount : ℤ)
        → IsReply w resp
        → Shows (get "constant_result" resp) amount
        → b ≡ record {
          contract = token;
          native = record { symbol = ""; decimals = 18; amount = amount };
        }
        → IsToken b
    failed :
        (w : World)
        → ¬ ((resp : Fields) × IsReply w resp)
        → b ≡ record {
          contract = token;
          native = record { symbol = ""; decimals = 18; amount = pos 0 };
        }
        → IsToken b

module _ (e : TronEnv) where
  open e use {World, new_request, send, unmarshal}

  -- A status of 200 and a body that decodes to an object without "Error".
  IsAnswer : Result String Response → Fields → Type 0
  IsAnswer s resp =
      (body : String) × (s ≡ ok (record { status = 200; body = ok body }))
      × (unmarshal body ≡ ok resp)
      × (get "Error" resp ≡ null)

  decoded-IsAnswer :
      (body : String) (u : Result String Fields) (resp : Fields)
      → unmarshal body ≡ u
      → reply_of e 200 body ≡ ok resp
      → IsAnswer (ok (record { status = 200; body = ok body })) resp
  unfolding reply_of IsAnswer
  decoded-IsAnswer body (err text) resp u h = absurd (ground (arith, rw u at h))
  decoded-IsAnswer body (ok fields) resp u h =
      let checked : check_error fields (get "Error" fields) ≡ ok resp = rw u at h in
      let (same, no_error) = check_error-ok fields resp (get "Error" fields) checked in
      (body, refl, u ∙ ap (λ f. ok f) same, ap (get "Error") (sym same) ∙ no_error)

  refused_status :
      (status : ℕ) (body : String) (resp : Fields)
      → (status == 200) ≡ false
      → reply_of e status body ≡ ok resp
      → ⊥
  unfolding reply_of
  refused_status status body resp bad h = ground (arith, rw bad at h)

  reply_of-IsAnswer :
      (status : ℕ) (body : String) (resp : Fields)
      → reply_of e status body ≡ ok resp
      → IsAnswer (ok (record { status = status; body = ok body })) resp
  reply_of-IsAnswer status body resp h = elim (Bool-cases (status == 200)) [
    | inl good ↦
        let same = (nat_eq.decides status 200).0 good in
        subst (λ n. IsAnswer (ok (record { status = n; body = ok body })) resp) (sym same)
          (decoded-IsAnswer body (unmarshal body) resp refl
            (ap (λ n. reply_of e n body) (sym same) ∙ h))
    | inr bad ↦ absurd (refused_status status body resp bad h)
  ]

  read_reply-IsAnswer :
      (status : ℕ) (body : Result String String) (resp : Fields)
      → read_reply e (ok (record { status = status; body = body })) ≡ ok resp
      → IsAnswer (ok (record { status = status; body = body })) resp
  unfolding read_reply
  read_reply-IsAnswer status (ok body) resp h = reply_of-IsAnswer status body resp h
  read_reply-IsAnswer status (err text) resp h = absurd (ground (arith, h))

  sent-IsAnswer :
      (s : Result String Response) (resp : Fields) → read_reply e s ≡ ok resp → IsAnswer s resp
  unfolding read_reply
  sent-IsAnswer (err text) resp h = absurd (ground (arith, h))
  sent-IsAnswer (ok r) resp h = read_reply-IsAnswer r.status r.body resp h

  IsAnswer-read_reply :
      (body : String) (resp : Fields)
      → unmarshal body ≡ ok resp
      → get "Error" resp ≡ null
      → read_reply e (ok (record { status = 200; body = ok body })) ≡ ok resp
  unfolding read_reply reply_of check_error
  IsAnswer-read_reply body resp decoded no_error = rw (decoded, no_error) refl

  -- What a call gives, by whether its request could be made.
  abbrev answered : Option String → Result String Response → Result RpcError Fields
  answered (some text) s = err (create_request text)
  answered none s = read_reply e s

  exchange-answered :
      (m : Option String) (url : Bytes) (content : Params) (w : World)
      → (exchange e m url content w).0 ≡ answered m (send url content w).0
  unfolding exchange
  exchange-answered none url content w = refl
  exchange-answered (some text) url content w = refl

  call_by :
      (cli : HttpClient) (method : Bytes) (content : Params) (w : World) (m : Option String)
      → new_request (cli.base_url ++ b'/' ∷ method) content ≡ m
      → (call_rpc e cli method content w).0
        ≡ answered m (send (cli.base_url ++ b'/' ∷ method) content w).0
  unfolding call_rpc
  call_by cli method content w m h =
      let url = cli.base_url ++ b'/' ∷ method in
      ap (λ o. (exchange e o url content w).0) h ∙ exchange-answered m url content w

module _ (e : TronEnv) (cli : HttpClient) (token owner : String) where
  open e use {World, new_request, send}

  abbrev asked : Bytes → World → Result RpcError Fields
  asked parameter w =
      (call_rpc e cli wallet_triggerconstantcontract
        (trigger_constant_contract owner token parameter) w).0

  asked-IsReply :
      (parameter : Bytes) (w : World) (m : Option String) (resp : Fields)
      → encode_balance_of_parameter e owner ≡ ok parameter
      → new_request
          (cli.base_url ++ b'/' ∷ wallet_triggerconstantcontract)
          (trigger_constant_contract owner token parameter)
        ≡ m
      → asked parameter w ≡ ok resp
      → IsReply e cli token owner w resp
  unfolding IsAnswer
  asked-IsReply parameter w none resp encoded made h =
      let (body, sent, decoded, no_error) =
        sent-IsAnswer e _ resp (sym (call_by e cli _ _ w none made) ∙ h) in
      record {
        parameter = parameter;
        body = body;
        encoded = encoded;
        made = made;
        sent = sent;
        decoded = decoded;
        no_error = no_error;
      }
  asked-IsReply parameter w (some text) resp encoded made h =
      let same = sym (call_by e cli _ _ w (some text) made) ∙ h in absurd (ground (arith, same))

  IsReply-asked :
      (parameter : Bytes) (w : World) (resp : Fields)
      → encode_balance_of_parameter e owner ≡ ok parameter
      → IsReply e cli token owner w resp
      → asked parameter w ≡ ok resp
  IsReply-asked parameter w resp encoded is =
      let same : is.parameter ≡ parameter =
        (let s = sym is.encoded ∙ encoded in ground (arith, s)) in
      ap (λ p. asked p w) (sym same)
      ∙ call_by e cli _ _ w none is.made
      ∙ ap (read_reply e) is.sent
      ∙ IsAnswer-read_reply e is.body resp is.decoded is.no_error

  amount_of : Fields → TokenBalance
  amount_of resp = trc20 token (constant_result (get "constant_result" resp))

  shown :
      (w : World) (r : Result RpcError Fields)
      → ((resp : Fields) → r ≡ ok resp → IsReply e cli token owner w resp)
      → ((resp : Fields) → IsReply e cli token owner w resp → r ≡ ok resp)
      → IsToken e cli token owner
          (or_zero (trc20 token (pos 0)) (r >>= (λ resp. ok (amount_of resp))))
  unfolding amount_of
  shown w (ok resp) to from =
      replied w resp (constant_result (get "constant_result" resp)) (to resp refl)
        (constant_result-Shows (get "constant_result" resp)) refl
  shown w (err x) to from =
      failed w (λ (resp, is). let same = from resp is in ground (arith, same)) refl

  encoded-IsToken :
      (w : World) (r : Result RpcError Bytes)
      → encode_balance_of_parameter e owner ≡ r
      → IsToken e cli token owner
          (or_zero (trc20 token (pos 0)) (balance_of_contract e cli token owner r w).0)
  unfolding balance_of_contract amount_of
  encoded-IsToken w (ok parameter) encoded =
      shown w (asked parameter w) (λ resp h. asked-IsReply parameter w _ resp encoded refl h)
        (λ resp is. IsReply-asked parameter w resp encoded is)
  encoded-IsToken w (err x) encoded =
      failed w (λ (resp, is). let same = sym is.encoded ∙ encoded in ground (arith, same)) refl

  -- A round of the loop over the tokens.
  pub token_or_zero-IsToken :
      (w : World) → IsToken e cli token owner (token_or_zero e cli owner token w).0
  unfolding token_or_zero get_trc20_balance
  token_or_zero-IsToken w = encoded-IsToken w (encode_balance_of_parameter e owner) refl
