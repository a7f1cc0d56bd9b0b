-- ===== src/Eaphost/Config/RoundTrip.antt =====
-- crates/eaphost/src/config.rs: `from_bytes` on what `to_bytes` wrote.
use usg_supplicant.Common.{
  ℕ, ◌+◌, ◌≤◌, Bool, true, false, not, List, [], ◌∷◌, ◌++◌, append_assoc, Option, none, some,
  Result, ok, err, length, lt→ltb, leb, le→leb, length-append, append-nil, is_empty, if◌then◌else◌,
  ◌==◌, bit_and, max_64, ◌≡◌, refl, ap, subst, ◌∙◌, arith, All,
}
use usg_supplicant.Common.Bytes.{u32_le, IsU32}
use usg_supplicant.Common.Exec.{pure, ◌>>=◌, ◌>>◌}
use usg_supplicant.Pac.{same}
use usg_supplicant.Eaphost.Config
use usg_supplicant.Eaphost.Config.{
  ConfigError, Reader, Act, SessionConfigBlob, clamp_u32, put_bytes, put_roots, put_mat, magic,
  to_bytes, from_bytes,
}
use usg_supplicant.Eaphost.Config.Reads.{
  Rest, Reads, Reads-then, Reads-bind, Reads-pure, Reads-require, Reads-map, take-Reads, u8-Reads,
  u32-Reads, bytes-Reads, read_roots-Reads,
}

abbrev FitsMat : Option (List ℕ) → Type 0
FitsMat none = Unit {0}
FitsMat (some mat) = IsU32 (length mat)

-- The numbers are 32 bits wide, every length can be written, and the strings are UTF-8.
pub record IsValid (utf8 : List ℕ → Bool) (c : SessionConfigBlob) : Type 0 where
  pub vendor : IsU32 c.mat_vendor_id
  pub fragment : IsU32 c.max_fragment
  pub server_utf8 : utf8 c.server_name ≡ true
  pub server_len : IsU32 (length c.server_name)
  pub subject_utf8 : utf8 c.selector_subject ≡ true
  pub subject_len : IsU32 (length c.selector_subject)
  pub count : IsU32 (length c.roots)
  pub ders : All (λ der. IsU32 (length der)) c.roots
  pub ticket : FitsMat c.mat

string-Reads :
    (utf8 : List ℕ → Bool) (b : List ℕ)
    → utf8 b ≡ true
    → IsU32 (length b)
    → Reads (Config.string utf8) (put_bytes b) b
unfolding Config.string
string-Reads utf8 b valid small =
    subst (λ l. Reads (Config.string utf8) l b) (append-nil (put_bytes b))
      (Reads-bind Config.bytes _ (put_bytes b) [] b b (bytes-Reads b small) (
        Reads-bind (Config.require (utf8 b) ConfigError.bad_utf8) _ [] [] tt b
          (Reads-require (utf8 b) ConfigError.bad_utf8 valid) (Reads-pure b)))

mat-then :
    {B : Type 0} (mat : Option (List ℕ)) (next : Option (List ℕ) → Act B) (v : Result ConfigError B)
    (rest : List ℕ)
    → FitsMat mat
    → ((t : Reader) → Rest t rest → (next mat t).0 ≡ v)
    → (r : Reader) → Rest r (put_mat mat ++ rest)
    → ((Config.u8 >>= λ tag. Config.read_mat tag >>= next) r).0 ≡ v
mat-then none next v rest h step r left =
    Reads-then Config.u8 _ (0 ∷ []) 0 v rest (u8-Reads 0)
      (λ t more. Reads-then (Config.read_mat 0) next [] none v rest (Reads-pure none) step t more) r
      left
mat-then (some mat) next v rest h step r left =
    Reads-then Config.u8 _ (1 ∷ []) 1 v (put_bytes mat ++ rest) (u8-Reads 1)
      (λ t more.
        Reads-then (Config.read_mat 1) next (put_bytes mat) (some mat) v rest
          (Reads-map Config.bytes some (put_bytes mat) mat (bytes-Reads mat h)) step t more)
      r left

count-Reads :
    (roots : List (List ℕ))
    → IsU32 (length roots)
    → Reads Config.u32 (u32_le (clamp_u32 (length roots))) (length roots)
count-Reads roots small =
    rw (lt→ltb (length roots) 4294967296 small) (u32-Reads (length roots) small)

abbrev read_machine : SessionConfigBlob → Bool
read_machine c = not (bit_and (Config.flags_of c.machine) Config.flag_machine == 0)

flags_read :
    (machine : Bool) → not (bit_and (Config.flags_of machine) Config.flag_machine == 0) ≡ machine
flags_read true = refl
flags_read false = refl

abbrev verdict : List ℕ → SessionConfigBlob → Result ConfigError SessionConfigBlob
verdict extra c = if is_empty extra then ok c else err ConfigError.trailing_data

at_end-verdict :
    (c : SessionConfigBlob) (extra : List ℕ) (t : Reader)
    → Rest t extra
    → ((Config.at_end >> pure c) t).0 ≡ verdict extra c
unfolding ◌>>=◌
at_end-verdict c [] t h =
    let total : length t.b ≡ length h.done + 0 = ap length h.whole ∙ length-append h.done [] in
    rw (le→leb (length t.b) t.pos (let e = h.reached in omega arith)) refl
at_end-verdict c (x ∷ extra) t h =
    let total : length t.b ≡ length h.done + length (x ∷ extra) =
      ap length h.whole ∙ length-append h.done (x ∷ extra) in
    let e = h.reached in let more : leb (length t.b) t.pos ≡ false = ground arith in rw more refl

to_bytes-append :
    (c : SessionConfigBlob) (extra : List ℕ)
    → to_bytes c ++ extra
      ≡ magic
        ++ (Config.version
            ∷ Config.flags_of c.machine
            ∷ (u32_le c.mat_vendor_id
                ++ (u32_le c.max_fragment
                    ++ (put_bytes c.server_name
                        ++ (put_bytes c.selector_subject
                            ++ (u32_le (clamp_u32 (length c.roots))
                                ++ (put_roots c.roots ++ (put_mat c.mat ++ extra))))))))
unfolding to_bytes
to_bytes-append c extra = simp append_assoc

-- On the octets of a valid configuration, `from_bytes` returns that configuration. With anything
-- behind them it fails with `TrailingData`. The input is at most 2^64 - 1 octets long.
pub from_bytes-to_bytes :
    (utf8 : List ℕ → Bool) (c : SessionConfigBlob) (extra : List ℕ)
    → IsValid utf8 c
    → length (to_bytes c ++ extra) ≤ max_64
    → from_bytes utf8 (to_bytes c ++ extra)
      ≡ (if is_empty extra then ok c else err ConfigError.trailing_data)
unfolding from_bytes Config.read same ◌>>=◌
from_bytes-to_bytes utf8 c extra valid small =
    let v = verdict extra c in
    Reads-then (Config.take 4) _ magic magic v _ (take-Reads magic)
      (λ r h.
        Reads-then Config.u8 _ (1 ∷ []) 1 v _ (u8-Reads 1)
          (λ r h.
            Reads-then Config.u8 _ (Config.flags_of c.machine ∷ []) (Config.flags_of c.machine) v _
              (u8-Reads (Config.flags_of c.machine))
              (λ r h.
                Reads-then Config.u32 _ (u32_le c.mat_vendor_id) c.mat_vendor_id v _
                  (u32-Reads c.mat_vendor_id valid.vendor)
                  (λ r h.
                    Reads-then Config.u32 _ (u32_le c.max_fragment) c.max_fragment v _
                      (u32-Reads c.max_fragment valid.fragment)
                      (λ r h.
                        Reads-then (Config.string utf8) _ (put_bytes c.server_name) c.server_name v
                          _ (string-Reads utf8 c.server_name valid.server_utf8 valid.server_len)
                          (λ r h.
                            Reads-then (Config.string utf8) _ (put_bytes c.selector_subject)
                              c.selector_subject v _
                              (string-Reads utf8 c.selector_subject valid.subject_utf8
                                valid.subject_len)
                              (λ r h.
                                Reads-then Config.u32 _ (u32_le (clamp_u32 (length c.roots)))
                                  (length c.roots) v _ (count-Reads c.roots valid.count)
                                  (λ r h.
                                    Reads-then (Config.read_roots (length c.roots)) _
                                      (put_roots c.roots) c.roots v _
                                      (read_roots-Reads c.roots valid.ders)
                                      (λ r h.
                                        mat-then c.mat _ v extra valid.ticket
                                          (λ t left.
                                            at_end-verdict (record c { machine = read_machine c })
                                              extra t left
                                            ∙ ap (λ m. verdict extra (record c { machine = m }))
                                                (flags_read c.machine))
                                          r h)
                                      r h)
                                  r h)
                              r h)
                          r h)
                      r h)
                  r h)
              r h)
          r h)
      (record { b = to_bytes c ++ extra; pos = 0 })
      (record { done = []; whole = to_bytes-append c extra; reached = refl; small = small })
