-- ===== src/Gateway/Validity.antt =====
-- The well-formedness of `Store` (internal/opsgateway/store.go): what its three maps say of one
-- another, and that receipts are numbered.
use graph_ops.Base.{
  ℕ, ◌+◌, ◌^◌, ◌≤◌, ◌<◌, String, ◌≡◌, refl, sym, ◌∙◌, Option, none, some, Bool, true, arith,
}
use graph_ops.Base.Decimal.{padded_behind_dash_inj}
use graph_ops.Base.Int.{next_u64, next_u64-eq_suc}
use graph_ops.Base.Map.{Map, get, put, get-empty, get-put_self, get-put_present, put-at_each}
use graph_ops.Base.Value.{Clock}
use graph_ops.Gateway.Types.{ActionReceipt, ScenarioData}
use graph_ops.Gateway.Requests.{RollbackRequest}
use graph_ops.Gateway.Redis.{RedisClient}
use graph_ops.Gateway.Store.{
  Store, new_store, receipt_id, new_receipt, execute_rollback, keep_receipt, mark_receipt,
}

-- A receipt stands under its own key, with a number that has been given out.
pub record IsIssued (seq : ℕ) (key : String) (r : ActionReceipt) : Type 0 where
  pub keyed : r.idempotency_key ≡ key
  pub numbered : (n : ℕ) × (r.receipt_id ≡ receipt_id n) × (n ≤ seq)

-- Two keys never share a receipt id.
abbrev pub HasDistinctIds : Map ActionReceipt → Type 0
HasDistinctIds m =
    (j : String) (w : ActionReceipt)
    → get m j ≡ some w
    → (k : String) (x : ActionReceipt) → get m k ≡ some x
    → w.receipt_id ≡ x.receipt_id
    → j ≡ k

pub record IsValid {R : Type 0} (s : Store R) : Type 0 where
  pub issued :
      (key : String) (r : ActionReceipt)
      → get s.receipts_by_key key ≡ some r
      → IsIssued s.receipt_seq key r
  pub distinct : HasDistinctIds s.receipts_by_key
  pub pointed :
      (id key : String)
      → get s.receipt_key_by_inc id ≡ some key
      → (r : ActionReceipt) × (get s.receipts_by_key key ≡ some r)
  pub flagged :
      (id : String) (flag : Bool)
      → get s.rolled_back_by_inc id ≡ some flag
      → (key : String) × (get s.receipt_key_by_inc id ≡ some key)

receipt_id_inj : (m n : ℕ) → receipt_id m ≡ receipt_id n → m ≡ n
unfolding receipt_id
receipt_id_inj m n e = padded_behind_dash_inj 6 m n "receipt" "receipt" e

IsIssued-le :
    (m n : ℕ) (key : String) (r : ActionReceipt) → m ≤ n → IsIssued m key r → IsIssued n key r
IsIssued-le m n key r le i =
    let (k, e, bound) = i.numbered in record { keyed = i.keyed; numbered = (k, e, omega arith) }

-- A number above all that were given out is new.
unissued :
    (seq n : ℕ) (key : String) (r : ActionReceipt)
    → seq < n
    → IsIssued seq key r
    → receipt_id n ≡ r.receipt_id
    → ⊥
unissued seq n key r lt i e =
    let (k, same, bound) = i.numbered in
    let equal : n ≡ k = receipt_id_inj n k (e ∙ same) in omega arith

put-HasDistinctIds :
    (m : Map ActionReceipt) (seq n : ℕ) (key : String) (r : ActionReceipt)
    → ((j : String) (w : ActionReceipt) → get m j ≡ some w → IsIssued seq j w)
    → HasDistinctIds m
    → seq < n
    → r.receipt_id ≡ receipt_id n
    → HasDistinctIds (put m key r)
put-HasDistinctIds m seq n key r issued distinct lt new =
    let P = λ (j : String) (w : ActionReceipt).
      (k : String) (x : ActionReceipt)
      → get (put m key r) k ≡ some x
      → w.receipt_id ≡ x.receipt_id
      → j ≡ k in
    put-at_each P m key r
      (λ j w h.
        put-at_each (λ k x. w.receipt_id ≡ x.receipt_id → j ≡ k) m key r (distinct j w h)
          (λ e. absurd (unissued seq n j w lt (issued j w h) (sym (e ∙ new)))))
      (put-at_each (λ k x. r.receipt_id ≡ x.receipt_id → key ≡ k) m key r
        (λ k x h e. absurd (unissued seq n k x lt (issued k x h) (sym new ∙ e))) (λ _. refl))

module _ {R : Type 0} where
  pub new_store-IsValid : (redis : R) → IsValid (new_store redis)
  new_store-IsValid redis = record {
    issued = λ key r h. cc (get-empty {V = ActionReceipt} key);
    distinct = λ j w h. cc (get-empty {V = ActionReceipt} j);
    pointed = λ id key h. cc (get-empty {V = String} id);
    flagged = λ id flag h. cc (get-empty {V = Bool} id);
  }

  -- Marking a receipt keeps every id.
  pub mark_receipt-IsValid :
      (status key : String) (found : Option ActionReceipt) (s : Store R)
      → get s.receipts_by_key key ≡ found
      → IsValid s
      → IsValid (mark_receipt status key found s)
  unfolding mark_receipt
  mark_receipt-IsValid status key none s e v = v
  mark_receipt-IsValid status key (some old) s e v =
      let marked = record old { verification_status = status } in
      let m = s.receipts_by_key in
      let origin =
        put-at_each
          (λ j w. (w0 : ActionReceipt) × (get m j ≡ some w0) × (w.receipt_id ≡ w0.receipt_id)) m key
          marked (λ j w h. (w, h, refl)) (old, e, refl) in
      record {
        issued = put-at_each (IsIssued s.receipt_seq) m key marked v.issued (record {
          keyed = (v.issued key old e).keyed;
          numbered = (v.issued key old e).numbered;
        });
        distinct = λ j w h k x h' same.
            let (w0, old_w, id_w) = origin j w h in
            let (x0, old_x, id_x) = origin k x h' in
            v.distinct j w0 old_w k x0 old_x (sym id_w ∙ (same ∙ id_x));
        pointed =
            λ id j h. let (r, there) = v.pointed id j h in get-put_present m key j marked r there;
        flagged = v.flagged;
      }

  pub execute_rollback-IsValid :
      (client : Option (RedisClient R)) (req : RollbackRequest) (d : ScenarioData) (clock : Clock)
      (s : Store R)
      → s.receipt_seq + 1 < 2 ^ 64
      → IsValid s
      → IsValid (execute_rollback client req d clock s).1
  unfolding execute_rollback keep_receipt
  execute_rollback-IsValid client req d clock s room v =
      let n = next_u64 s.receipt_seq in
      let lt : s.receipt_seq < n = omega (arith, next_u64-eq_suc s.receipt_seq room) in
      let r = new_receipt req d n clock in
      let key = req.idempotency_key in
      let m = s.receipts_by_key in
      let keys = s.receipt_key_by_inc in
      record {
        issued =
            put-at_each (IsIssued n) m key r
              (λ j w h. IsIssued-le s.receipt_seq n j w (omega arith) (v.issued j w h))
              (unfold new_receipt in record { keyed = refl; numbered = (n, refl, omega arith) });
        distinct =
            put-HasDistinctIds m s.receipt_seq n key r v.issued v.distinct lt
              (unfold new_receipt in refl);
        pointed =
            put-at_each (λ id j. (x : ActionReceipt) × (get (put m key r) j ≡ some x)) keys
              req.incident_id key
              (λ id j h. let (x, there) = v.pointed id j h in get-put_present m key j r x there)
              (r, get-put_self m key r);
        flagged =
            put-at_each (λ id flag. (j : String) × (get (put keys req.incident_id key) id ≡ some j))
              s.rolled_back_by_inc req.incident_id true
              (λ id flag h.
                let (j, there) = v.flagged id flag h in
                get-put_present keys req.incident_id id key j there)
              (key, get-put_self keys req.incident_id key);
      }
