-- ===== src/Fips/Loops.antt =====
-- crates/fips-tls/src/backend.rs: the rounds of the loops.
use usg_supplicant.Common.{
  ℕ, zero, suc, ◌≤◌, ◌<◌, false, List, [], ◌∷◌, ◌++◌, Result, ok, err, ltb, leb, ◌==◌, length,
  length-drop, get_from, unwrap_or, Bool-cases, ◌≡◌, refl, ap, inl, inr, arith,
}
use usg_supplicant.Common.Exec.{Post, resume, ◌>>=◌}
use usg_supplicant.Fips.{FipsTlsError}
use usg_supplicant.Fips.Client
use usg_supplicant.Fips.Client.{Connection, ReadError, TeapTlsClient, Act}

-- A write takes something from what is queued, and a read that returns octets something from what is
-- buffered.
pub record ConnectionLaws {C : Type 0} (lib : Connection C) : Type 0 where
  pub writes : (c : C) → 0 < lib.queued c → lib.queued (lib.write_tls c).1 < lib.queued c
  pub reads :
      (n : ℕ) (c d : C) (x : ℕ) (chunk : List ℕ)
      → lib.read n c ≡ (ok (x ∷ chunk), d)
      → lib.buffered d < lib.buffered c

resume_same :
    {C A B : Type 0} (r : Result FipsTlsError A) (f g : A → Act C B) (s : TeapTlsClient C)
    → ((a : A) → f a s ≡ g a s)
    → resume r f s ≡ resume r g s
resume_same (ok a) f g s h = h a
resume_same (err e) f g s h = refl

-- Behind a read of at least one octet less is left.
rest_shorter :
    (read x : ℕ) (rest : List ℕ)
    → (read == 0) ≡ false
    → length (unwrap_or (get_from read (x ∷ rest)) []) ≤ length rest
rest_shorter read x rest e = elim (Bool-cases (leb read (length (x ∷ rest)))) [
  | inl t ↦
      rw t (let l = length-drop read (x ∷ rest) in let pos : 0 < read = ground arith in omega arith)
  | inr f ↦ rw f (omega arith)
]

module _ {C : Type 0} (lib : Connection C) where
  feed_enough :
      (n m : ℕ) (rest : List ℕ) (s : TeapTlsClient C)
      → length rest ≤ n
      → length rest ≤ m
      → Client.feed lib n rest s ≡ Client.feed lib m rest s
  unfolding Client.feed ◌>>=◌
  feed_enough n m [] s hn hm = refl
  feed_enough zero m (x ∷ rest) s hn hm = absurd (omega arith)
  feed_enough (suc n) zero (x ∷ rest) s hn hm = absurd (omega arith)
  feed_enough (suc n) (suc m) (x ∷ rest) s hn hm =
      let (r, c) = Client.on_conn lib (lib.read_tls (x ∷ rest)) s in
      resume_same r (Client.after_read lib (Client.feed lib n) (x ∷ rest))
        (Client.after_read lib (Client.feed lib m) (x ∷ rest)) c
        (λ read. elim (Bool-cases (read == 0)) [
          | inl e ↦ rw e refl
          | inr e ↦
              let l = rest_shorter read x rest e in
              let (q, t) = Client.on_conn lib lib.process_new_packets c in
              rw e (
                resume_same q (λ _. Client.feed lib n (unwrap_or (get_from read (x ∷ rest)) []))
                  (λ _. Client.feed lib m (unwrap_or (get_from read (x ∷ rest)) [])) t
                  (λ _.
                    feed_enough n m (unwrap_or (get_from read (x ∷ rest)) []) t (omega arith)
                      (omega arith)))
        ])

  wrote :
      {B : Type 0} (Q : B → TeapTlsClient C → Type 0) (next : List ℕ → Act C B) (n : ℕ)
      (s : TeapTlsClient C) (p : Result (Unit {0}) (List ℕ) × C)
      → lib.queued p.1 ≤ n
      → ((bytes : List ℕ) (t : TeapTlsClient C) → lib.queued t.conn ≤ n → Post Q (next bytes t))
      → Post Q (resume (Client.as_rustls p.0) next (record s { conn = p.1 }))
  wrote Q next n s (ok bytes, c) l h = h bytes (record s { conn = c }) l
  wrote Q next n s (err e, c) l h = tt

  -- What one read does, where what follows agrees for a smaller buffer.
  after_chunk_same :
      (f g : List ℕ → Act C (List ℕ)) (out : List ℕ) (s : TeapTlsClient C)
      (r : Result ReadError (List ℕ))
      → ((x : ℕ) (chunk : List ℕ) → r ≡ ok (x ∷ chunk) → (o : List ℕ) → f o s ≡ g o s)
      → Client.after_chunk lib f out r s ≡ Client.after_chunk lib g out r s
  after_chunk_same f g out s (ok []) h = refl
  after_chunk_same f g out s (ok (x ∷ chunk)) h = h x chunk refl (out ++ x ∷ chunk)
  after_chunk_same f g out s (err ReadError.other) h = refl
  after_chunk_same f g out s (err ReadError.would_block) h = refl
  after_chunk_same f g out s (err ReadError.unexpected_eof) h = refl

  module _ (laws : ConnectionLaws lib) where
    write_out_empty :
        (n : ℕ) (out : List ℕ) (s : TeapTlsClient C)
        → lib.queued s.conn ≤ n
        → Post (λ _ t. lib.queued t.conn ≡ 0) (Client.write_out lib n out s)
    unfolding Client.write_out ◌>>=◌
    write_out_empty zero out s h = omega arith
    write_out_empty (suc n) out s h = elim (Bool-cases (ltb 0 (lib.queued s.conn))) [
      | inl e ↦ rw e (
          wrote (λ _ t. lib.queued t.conn ≡ 0) (λ bytes. Client.write_out lib n (out ++ bytes)) n s
            (lib.write_tls s.conn) (let w = laws.writes s.conn (ground arith) in omega arith)
            (λ bytes t l. write_out_empty n (out ++ bytes) t l))
      | inr e ↦ rw e (ground arith)
    ]

    read_out_enough :
        (n m : ℕ) (out : List ℕ) (s : TeapTlsClient C)
        → lib.buffered s.conn < n
        → lib.buffered s.conn < m
        → Client.read_out lib n out s ≡ Client.read_out lib m out s
    unfolding Client.read_out
    read_out_enough zero m out s hn hm = absurd (omega arith)
    read_out_enough (suc n) zero out s hn hm = absurd (omega arith)
    read_out_enough (suc n) (suc m) out s hn hm =
        let p = lib.read Client.chunk_len s.conn in
        after_chunk_same (Client.read_out lib n) (Client.read_out lib m) out
          (record s { conn = p.1 }) p.0
          (λ x chunk e o.
            let less : lib.buffered p.1 < lib.buffered s.conn =
              laws.reads Client.chunk_len s.conn p.1 x chunk (ap (λ r. (r, p.1)) e) in
            read_out_enough n m o (record s { conn = p.1 }) (omega arith) (omega arith))

    -- Where a write takes something from what is queued and a read from what is buffered, the loops
    -- run to their ends: a `take_outgoing` that returns leaves nothing queued, and with more rounds
    -- than they are given `feed_incoming` and the reads of `unprotect` do the same.
    loops_end :
        (s : TeapTlsClient C) (records : List ℕ) (n m : ℕ)
        → length records ≤ n
        → lib.buffered s.conn < m
        → Post (λ _ t. lib.queued t.conn ≡ 0) (Client.take_outgoing lib s)
          × (Client.feed lib n records s ≡ Client.feed_incoming lib records s)
          × (Client.read_out lib m [] s ≡ Client.drain lib s)
    unfolding Client.take_outgoing Client.feed_incoming Client.drain
    loops_end s records n m hn hm = (
      write_out_empty (lib.queued s.conn) [] s (omega arith),
      feed_enough n (length records) records s hn (omega arith),
      read_out_enough m (suc (lib.buffered s.conn)) [] s hm (omega arith),
    )
