-- ===== src/Eaphost/Config/Reads.antt =====
-- crates/eaphost/src/config.rs: the methods of `Reader` on what was written.
use usg_supplicant.Common.{
  ℕ, ◌+◌, ◌≤◌, Bool, true, List, [], ◌∷◌, ◌++◌, append-nil, append_assoc, Result, ok, ok_or, length,
  leb, le→leb, lt→ltb, length-append, get_range-append, max_64, ◌≡◌, refl, sym, ap, subst, ◌∙◌,
  arith, All,
}
use usg_supplicant.Common.Bytes.{u32_le, IsU32, u32_from_le-u32_le}
use usg_supplicant.Common.Exec.{pure, ◌>>=◌}
use usg_supplicant.Eaphost.Config.{
  ConfigError, Reader, Act, put_bytes, put_roots, take, u8, u32, bytes, read_roots, require,
}

-- The octets in front of the reader's position are read, and these are left.
pub record Rest (r : Reader) (rest : List ℕ) : Type 0 where
  pub done : List ℕ
  pub whole : r.b ≡ done ++ rest
  pub reached : r.pos ≡ length done
  pub small : length r.b ≤ max_64

-- The action reads these octets, whatever follows them, and returns this value.
abbrev pub Reads : {A : Type 0} → Act A → List ℕ → A → Type 0
Reads act x a =
    (r : Reader) (rest : List ℕ)
    → Rest r (x ++ rest)
    → (t : Reader) × (act r ≡ (ok a, t)) × Rest t rest

-- What is left decides what a sequence returns.
pub Reads-then :
    {A B : Type 0} (act : Act A) (next : A → Act B) (x : List ℕ) (a : A) (v : Result ConfigError B)
    (rest : List ℕ)
    → Reads act x a
    → ((t : Reader) → Rest t rest → (next a t).0 ≡ v)
    → (r : Reader) → Rest r (x ++ rest)
    → ((act >>= next) r).0 ≡ v
unfolding ◌>>=◌
Reads-then act next x a v rest reads step r h =
    let (t, e, left) = reads r rest h in rw e (step t left)

pub Reads-bind :
    {A B : Type 0} (act : Act A) (next : A → Act B) (x y : List ℕ) (a : A) (b : B)
    → Reads act x a
    → Reads (next a) y b
    → Reads (act >>= next) (x ++ y) b
unfolding ◌>>=◌
Reads-bind act next x y a b first second r rest h =
    let (t, e, left) = first r (y ++ rest) (subst (λ l. Rest r l) (append_assoc x y rest) h) in
    let (u, f, end) = second t rest left in (u, rw e f, end)

pub Reads-pure : {A : Type 0} (a : A) → Reads (pure a) [] a
Reads-pure a r rest h = (r, refl, h)

pub Reads-require : (b : Bool) (e : ConfigError) → b ≡ true → Reads (require b e) [] tt
Reads-require b e same r rest h = (r, rw same refl, h)

-- A value that is computed from the one that was read.
pub Reads-map :
    {A B : Type 0} (act : Act A) (f : A → B) (x : List ℕ) (a : A)
    → Reads act x a
    → Reads (act >>= λ c. pure (f c)) x (f a)
Reads-map act f x a reads =
    subst (λ l. Reads (act >>= λ c. pure (f c)) l (f a)) (append-nil x)
      (Reads-bind act (λ c. pure (f c)) x [] a (f a) reads (Reads-pure (f a)))

pub take-Reads : (x : List ℕ) → Reads (take (length x)) x x
unfolding take
take-Reads x r rest h =
    let total : length r.b ≡ length h.done + (length x + length rest) =
      ap length h.whole
      ∙ (length-append h.done (x ++ rest)
          ∙ ap (λ (n : ℕ). length h.done + n) (length-append x rest)) in
    let fits : leb (length h.done + length x) max_64 ≡ true =
      le→leb (length h.done + length x) max_64 (let s = h.small in omega arith) in
    (
      record { b = r.b; pos = length h.done + length x },
      rw (h.reached, fits, h.whole, get_range-append h.done x rest) refl,
      record {
        done = h.done ++ x;
        whole = h.whole ∙ sym (append_assoc h.done x rest);
        reached = sym (length-append h.done x);
        small = h.small;
      },
    )

pub u8-Reads : (v : ℕ) → Reads u8 (v ∷ []) v
unfolding u8 ◌>>=◌
u8-Reads v r rest h = let (t, e, left) = take-Reads (v ∷ []) r rest h in (t, rw e refl, left)

pub u32-Reads : (n : ℕ) → IsU32 n → Reads u32 (u32_le n) n
unfolding u32 ◌>>=◌
u32-Reads n small r rest h =
    let (t, e, left) = take-Reads (u32_le n) r rest h in
    (t, rw e (ap (λ o. (ok_or o ConfigError.truncated, t)) (u32_from_le-u32_le n small)), left)

pub bytes-Reads : (b : List ℕ) → IsU32 (length b) → Reads bytes (put_bytes b) b
unfolding bytes
bytes-Reads b small = rw (lt→ltb (length b) 4294967296 small) (
    Reads-bind u32 take (u32_le (length b)) b (length b) b (u32-Reads (length b) small)
      (take-Reads b))

pub read_roots-Reads :
    (roots : List (List ℕ))
    → All (λ der. IsU32 (length der)) roots
    → Reads (read_roots (length roots)) (put_roots roots) roots
unfolding read_roots put_roots
read_roots-Reads [] h = Reads-pure []
read_roots-Reads (der ∷ roots) (first, h) =
    Reads-bind bytes _ (put_bytes der) (put_roots roots) der (der ∷ roots) (bytes-Reads der first) (
      Reads-map (read_roots (length roots)) (λ more. der ∷ more) (put_roots roots) roots
        (read_roots-Reads roots h))
