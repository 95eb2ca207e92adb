-- ===== src/Service/Importer/Counts.antt =====
-- The counters of the import in internal/eds/pkg/directory/v3/importer.go.
use eamerald.Base.{ℕ, ◌+◌, ◌%◌, ◌^◌, ◌≡◌, refl, Bool, true, false, List, [], arith}
use eamerald.Base.Exec.{Error, Result, ok, err, transact-ok}
use eamerald.Store.Tx.{Tx}
use eamerald.Service.Context.{Context}
use eamerald.Service.Importer.{
  Opcode, op_set, op_delete, op_delete_with_relations, op_other, Payload, object_msg, relation_msg,
  no_msg, ImportRequest, ImportCounter, Counters, new_counters, update_counter, count_object,
  count_relation, handle_object, handle_relation, handle_payload, handle_import_request, Stream,
  cancelled, eof, recv_error, message, Response, Sent, import_loop, import_stream,
}

-- Whether a message is one of an object with an opcode that is known, and one of a relation.
abbrev pub known_object : Opcode → Payload → Bool
known_object (op_other n) (object_msg m) = false
known_object _ (object_msg m) = true
known_object _ _ = false

abbrev pub known_relation : Opcode → Payload → Bool
known_relation op_set (relation_msg m) = true
known_relation op_delete (relation_msg m) = true
known_relation _ _ = false

abbrev pub is_object : ImportRequest → Bool
is_object req = known_object req.op_code req.msg

abbrev pub is_relation : ImportRequest → Bool
is_relation req = known_relation req.op_code req.msg

abbrev pub of_bool : Bool → ℕ
of_bool true = 1
of_bool false = 0

-- How many messages of a stream pass a test, up to where the loop ends.
abbrev pub count_messages : (ImportRequest → Bool) → Stream → ℕ
count_messages p cancelled = 0
count_messages p (eof b r) = 0
count_messages p (recv_error rest) = count_messages p rest
count_messages p (message req rest) = of_bool (p req) + count_messages p rest

-- A counter has received what it has set, deleted and refused, as uint64 numbers.
abbrev pub IsBalanced : ImportCounter → Type 0
IsBalanced c = (c.set + c.delete + c.error) % 2 ^ 64 ≡ c.recv

abbrev pub AreCounted : Counters → ℕ → ℕ → Type 0
AreCounted ctr n k =
    (ctr.object.recv ≡ n % 2 ^ 64)
    × IsBalanced ctr.object
    × (ctr.relation.recv ≡ k % 2 ^ 64)
    × IsBalanced ctr.relation

counted_next :
    {A : Type 0} (c : ImportCounter) (op : Opcode) (r : Result A) (n : ℕ)
    → c.recv ≡ n % 2 ^ 64
    → IsBalanced c
    → ((m : ℕ) → op ≡ op_other m → ⊥)
    → ((update_counter c op r).recv ≡ (n + 1) % 2 ^ 64) × IsBalanced (update_counter c op r)
unfolding update_counter
counted_next c op (err e) n h b known = (omega arith, omega arith)
counted_next c op_set (ok a) n h b known = (omega arith, omega arith)
counted_next c op_delete (ok a) n h b known = (omega arith, omega arith)
counted_next c op_delete_with_relations (ok a) n h b known = (omega arith, omega arith)
counted_next c (op_other m) (ok a) n h b known = absurd (known m refl)

module _ (tx : Tx) (ctx : Context) where
  counted_payload :
      (op : Opcode) (m : Payload) (ctr : Counters) (s : tx.State) (n k : ℕ)
      → AreCounted ctr n k
      → AreCounted
          (handle_payload tx ctx op m ctr s).1
          (n + of_bool (known_object op m))
          (k + of_bool (known_relation op m))
  unfolding handle_payload handle_object handle_relation count_object count_relation
  counted_payload op_set (object_msg m) ctr s n k (a, b, c, d) =
      let (p, q) = counted_next ctr.object op_set _ n a b (λ i e. cc) in (p, q, omega arith, d)
  counted_payload op_delete (object_msg m) ctr s n k (a, b, c, d) =
      let (p, q) = counted_next ctr.object op_delete _ n a b (λ i e. cc) in (p, q, omega arith, d)
  counted_payload op_delete_with_relations (object_msg m) ctr s n k (a, b, c, d) =
      let (p, q) = counted_next ctr.object op_delete_with_relations _ n a b (λ i e. cc) in
      (p, q, omega arith, d)
  counted_payload (op_other i) (object_msg m) ctr s n k (a, b, c, d) =
      (omega arith, b, omega arith, d)
  counted_payload op_set (relation_msg m) ctr s n k (a, b, c, d) =
      let (p, q) = counted_next ctr.relation op_set _ k c d (λ i e. cc) in (omega arith, b, p, q)
  counted_payload op_delete (relation_msg m) ctr s n k (a, b, c, d) =
      let (p, q) = counted_next ctr.relation op_delete _ k c d (λ i e. cc) in (omega arith, b, p, q)
  counted_payload op_delete_with_relations (relation_msg m) ctr s n k (a, b, c, d) =
      (omega arith, b, omega arith, d)
  counted_payload (op_other i) (relation_msg m) ctr s n k (a, b, c, d) =
      (omega arith, b, omega arith, d)
  counted_payload op_set no_msg ctr s n k (a, b, c, d) = (omega arith, b, omega arith, d)
  counted_payload op_delete no_msg ctr s n k (a, b, c, d) = (omega arith, b, omega arith, d)
  counted_payload op_delete_with_relations no_msg ctr s n k (a, b, c, d) =
      (omega arith, b, omega arith, d)
  counted_payload (op_other i) no_msg ctr s n k (a, b, c, d) = (omega arith, b, omega arith, d)

  -- A loop that has run is counted, whichever sums the bounds are written with.
  counted_sum :
      (ctr ctr' : Counters) (n n' k k' : ℕ)
      → ctr ≡ ctr'
      → n ≡ n'
      → k ≡ k'
      → AreCounted ctr n k
      → AreCounted ctr' n' k'
  counted_sum ctr ctr' n n' k k' same same_n same_k h = rw (same, same_n, same_k) at h

  module _ (has_status : Error → Bool) where
    counted_loop :
        (stream : Stream) (sent sent' : List Response) (ctr ctr' : Counters) (s s' : tx.State)
        (n k : ℕ)
        → AreCounted ctr n k
        → import_loop tx ctx has_status stream sent ctr s ≡ (ok (sent', ctr'), s')
        → AreCounted ctr'
            (n + count_messages is_object stream)
            (k + count_messages is_relation stream)
    unfolding import_loop handle_import_request
    counted_loop cancelled sent sent' ctr ctr' s s' n k h run =
        let same : ctr ≡ ctr' = cc in
        counted_sum ctr ctr' n _ k _ same (omega arith) (omega arith) h
    counted_loop (eof b (ok u)) sent sent' ctr ctr' s s' n k h run =
        let same : ctr ≡ ctr' = cc in
        counted_sum ctr ctr' n _ k _ same (omega arith) (omega arith) h
    counted_loop (eof b (err e)) sent sent' ctr ctr' s s' n k h run = absurd (differ e s run)
      where
        differ :
            (e : Error) (s : tx.State)
            → ◌≡◌ {A = Result Sent × tx.State} (err e, s) (ok (sent', ctr'), s')
            → ⊥
        differ e s q = cc
    counted_loop (recv_error rest) sent sent' ctr ctr' s s' n k h run =
        counted_loop rest sent sent' ctr ctr' s s' n k h run
    counted_loop (message req rest) sent sent' ctr ctr' s s' n k h run =
        counted_sum ctr' ctr' _ _ _ _ refl (omega arith) (omega arith) (
          counted_loop rest _ sent' _ ctr' _ s' _ _
            (counted_payload req.op_code req.msg ctr s n k h) run)

    -- When an import ends without an error, each counter has received the messages of the stream of
    -- its type that have an opcode for it, and what it received is what it set, deleted and
    -- refused, all as uint64 numbers.
    pub import_stream-AreCounted :
        (stream : Stream) (sent : List Response) (ctr : Counters) (s s' : tx.State)
        → import_stream tx ctx has_status stream s ≡ (ok (sent, ctr), s')
        → AreCounted ctr (count_messages is_object stream) (count_messages is_relation stream)
    unfolding import_stream
    import_stream-AreCounted stream sent ctr s s' run =
        let done =
          transact-ok (import_loop tx ctx has_status stream [] new_counters) s (sent, ctr) s' run in
        counted_sum ctr ctr _ _ _ _ refl (omega arith) (omega arith)
          (counted_loop stream [] sent new_counters ctr s s' 0 0 (refl, refl, refl, refl) done)
