-- ===== src/Headers/Laws.antt =====
-- What the header map holds after an update.
use yui_relayer.Base.{
  String, ◌≡◌, refl, ◌∙◌, inl, inr, message, ◌≢◌, false, some, arith, str_eq, str_eq_iff, ok, err,
  Bool-cases, Answered, Returns, Returns-asked,
}
use yui_relayer.Ibc.{Header}
use yui_relayer.Chain.{ProvableChain}
use yui_relayer.Headers.{SyncHeaders, put, get_query_context, updates}

-- What an update has done to the map: each chain has the header that it has answered, at whose height it
-- is queried from now on, and no other entry has changed.
pub record Updated {W : Type 0} (src dst : ProvableChain W) (sh sh' : SyncHeaders) : Type 0 where
  pub s : Header
  pub d : Header
  pub different : src.chain_id ≢ dst.chain_id
  pub src_answered : Answered src.get_latest_finalized_header s
  pub dst_answered : Answered dst.get_latest_finalized_header d
  pub src_written : sh' src.chain_id ≡ some s
  pub dst_written : sh' dst.chain_id ≡ some d
  pub others_kept : (id : String) → id ≢ src.chain_id → id ≢ dst.chain_id → sh' id ≡ sh id
  pub src_context : (w : W) → get_query_context sh' src.chain_id w ≡ (ok s.height, w)
  pub dst_context : (w : W) → get_query_context sh' dst.chain_id w ≡ (ok d.height, w)

put_lem :
    (sh : SyncHeaders) (k : String) (h : Header) (id : String)
    → ((id ≡ k) → put sh k h id ≡ some h) × (id ≢ k → put sh k h id ≡ sh id)
unfolding put
put_lem sh k h id = (λ e. ground (arith, str_eq_iff id k), λ e. ground (arith, str_eq_iff id k))

context_of :
    {W : Type 0} (sh : SyncHeaders) (id : String) (h : Header) (w : W)
    → sh id ≡ some h
    → get_query_context sh id w ≡ (ok h.height, w)
unfolding get_query_context
context_of sh id h w e = rw e refl

module _ {W : Type 0} (src dst : ProvableChain W) (sh : SyncHeaders) where
  put-Updated :
      (s d : Header)
      → src.chain_id ≢ dst.chain_id
      → Answered src.get_latest_finalized_header s
      → Answered dst.get_latest_finalized_header d
      → Updated src dst sh (put (put sh src.chain_id s) dst.chain_id d)
  put-Updated s d ne a b =
      let sh1 = put sh src.chain_id s in
      let sh2 = put sh1 dst.chain_id d in
      let at_src : sh2 src.chain_id ≡ some s =
        (put_lem sh1 dst.chain_id d src.chain_id).1 ne
        ∙ (put_lem sh src.chain_id s src.chain_id).0 refl in
      let at_dst : sh2 dst.chain_id ≡ some d = (put_lem sh1 dst.chain_id d dst.chain_id).0 refl in
      record {
        s = s;
        d = d;
        different = ne;
        src_answered = a;
        dst_answered = b;
        src_written = at_src;
        dst_written = at_dst;
        others_kept =
            λ id x y. (put_lem sh1 dst.chain_id d id).1 y ∙ (put_lem sh src.chain_id s id).1 x;
        src_context = λ w. context_of sh2 src.chain_id s w at_src;
        dst_context = λ w. context_of sh2 dst.chain_id d w at_dst;
      }

-- For every pair of chains and every map: an update that succeeds was given two different chain ids,
-- leaves for each of them the header that its chain has answered, changes no other entry, and from then
-- on the query context of each chain is the height of its header; for one chain id given twice it is an
-- error, and the chains are not asked.
pub updates-Updated :
    {W : Type 0} (src dst : ProvableChain W) (sh : SyncHeaders) (w : W)
    → Returns (Updated src dst sh) (updates src dst sh w)
      × (src.chain_id ≡ dst.chain_id
          → updates src dst sh w ≡ (err (message "the two chains are probably the same"), w))
unfolding updates
updates-Updated src dst sh w = elim (Bool-cases (str_eq src.chain_id dst.chain_id)) [
  | inl same ↦ rw same (tt, λ e. refl)
  | inr apart ↦ rw apart (
    Returns-asked (Updated src dst sh) _ (src.get_latest_finalized_header w) (λ s w1 a.
        Returns-asked (Updated src dst sh) _ (dst.get_latest_finalized_header w1)
          (λ d w2 b. put-Updated src dst sh s d (differ apart) (w, w1, a) (w1, w2, b))),
    λ e. absurd (differ apart e),
  )
]
  where
    differ : str_eq src.chain_id dst.chain_id ≡ false → src.chain_id ≢ dst.chain_id
    differ h e = ground (arith, str_eq_iff src.chain_id dst.chain_id)
