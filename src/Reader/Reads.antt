-- ===== src/Reader/Reads.antt =====
-- What it means that a decoder reads a value off the front of the bytes, and the rules for it.
use topgent.Base.{
  ℕ, ◌+◌, ◌-◌, ◌≤◌, ◌≡◌, refl, sym, ap, ◌∙◌, [], ◌++◌, append_assoc, append-nil, ok, err, arith,
  subst, length, drop, length-append, length-drop, take-length-append, drop-length-append, drop-add,
  some, le→leb, Result,
}
use topgent.Text.{Bytes}
use topgent.Reader.{
  Reader, Decoder, DecodeError, fail, ◌>>=◌, pure, take_bytes, get_range, finish, new, read,
  usize_max, saturating_add,
}

-- The reader has exactly the bytes `s` left.
pub record At (r : Reader) (s : Bytes) : Type 0 where
  pub left : drop r.at r.buffer ≡ s
  pub inside : r.at ≤ length r.buffer
  pub fits : length r.buffer ≤ usize_max

-- From a reader that has `e` and anything after it left, the decoder returns `a` and stops right
-- behind `e`.
pub record Reads {A : Type 0} (m : Decoder A) (e : Bytes) (a : A) : Type 0 where
  pub run :
      (r : Reader) (rest : Bytes)
      → At r (e ++ rest)
      → (r' : Reader) × (m r ≡ ok (a, r')) × At r' rest

pub Reads-pure : {A : Type 0} (a : A) → Reads (pure a) [] a
unfolding pure
Reads-pure a = record { run = λ r rest h. (r, refl, h) }

bind-ok :
    {A B : Type 0} (m : Decoder A) (f : A → Decoder B) (r r' : Reader) (a : A)
    → m r ≡ ok (a, r')
    → (m >>= f) r ≡ f a r'
unfolding ◌>>=◌
bind-ok m f r r' a p = rw (p, ◌>>=◌)

At-append : {r : Reader} (e d rest : Bytes) → At r ((e ++ d) ++ rest) → At r (e ++ (d ++ rest))
At-append e d rest h = record {
  left = h.left ∙ append_assoc e d rest;
  inside = h.inside;
  fits = h.fits;
}

pub Reads-bind :
    {A B : Type 0} (m : Decoder A) (f : A → Decoder B) {e d : Bytes} {a : A} {b : B}
    → Reads m e a
    → Reads (f a) d b
    → Reads (m >>= f) (e ++ d) b
Reads-bind m f {e} {d} {a} hm hf = record {
  run = λ r rest h.
      let (r', p, h') = hm.run r (d ++ rest) (At-append e d rest h) in
      let (r'', q, h'') = hf.run r' rest h' in (r'', bind-ok m f r r' a p ∙ q, h'');
}

-- A last step that only builds the result.
pub Reads-map :
    {A B : Type 0} (m : Decoder A) (f : A → Decoder B) {e : Bytes} {a : A} {b : B}
    → Reads m e a
    → f a ≡ pure b
    → Reads (m >>= f) e b
Reads-map m f {e} {a} {b} hm p =
    rw (append-nil e) at (Reads-bind m f hm (subst (λ k. Reads k [] b) (sym p) (Reads-pure b)))

pub left-length : {r : Reader} (s : Bytes) → At r s → length s + r.at ≡ length r.buffer
left-length {r} s h = omega (arith, ap length h.left, length-drop r.at r.buffer, h.inside)

get_range_lem :
    (bs e rest : Bytes) (from to : ℕ)
    → drop from bs ≡ e ++ rest
    → to ≡ from + length e
    → to ≤ length bs
    → get_range bs from to ≡ some e
unfolding get_range
get_range_lem bs e rest from to p q h =
    let size : to - from ≡ length e = omega arith in
    rw (le→leb from to (omega arith), le→leb to (length bs) h, size, p)
      (ap some (take-length-append e rest))

saturating_add_lem : (a b : ℕ) → a + b ≤ usize_max → saturating_add a b ≡ a + b
saturating_add_lem a b h = rw (le→leb (a + b) usize_max h)

pub At-step :
    {r : Reader} (e rest : Bytes) → At r (e ++ rest) → At (record r { at = r.at + length e }) rest
At-step {r} e rest h = record {
  left =
      drop-add r.at (length e) r.buffer ∙ ap (drop (length e)) h.left ∙ drop-length-append e rest;
  inside = omega (arith, left-length (e ++ rest) h, length-append e rest);
  fits = h.fits;
}

take_bytes_lem :
    (r : Reader) (e rest : Bytes)
    → At r (e ++ rest)
    → take_bytes (length e) r ≡ ok (e, record r { at = r.at + length e })
unfolding take_bytes
take_bytes_lem r e rest h =
    let room : r.at + length e ≤ length r.buffer =
      omega (arith, left-length (e ++ rest) h, length-append e rest) in
    let end : saturating_add r.at (length e) ≡ r.at + length e =
      saturating_add_lem r.at (length e) (omega (arith, h.fits)) in
    rw (end, take_bytes, get_range_lem r.buffer e rest r.at (r.at + length e) h.left refl room)
      (ap {B = Result DecodeError (Bytes × Reader)} (λ n. ok (e, record r { at = n })) end)

At-new : (e : Bytes) → length e ≤ usize_max → At (new e) (e ++ [])
unfolding new
At-new e fits = record { left = sym (append-nil e); inside = omega arith; fits = fits }

finish-At : {r : Reader} → At r [] → finish r ≡ ok tt
unfolding finish
finish-At {r} h = ground (arith, left-length [] h)

pub take_bytes-Reads : (e : Bytes) → Reads (take_bytes (length e)) e e
take_bytes-Reads e = record {
  run =
      λ r rest h. (record r { at = r.at + length e }, take_bytes_lem r e rest h, At-step e rest h);
}

-- A buffer that holds nothing but what the decoder reads is read whole.
pub read-Reads :
    {A : Type 0} (m : Decoder A) {e : Bytes} {a : A}
    → Reads m e a
    → length e ≤ usize_max
    → read m e ≡ ok a
unfolding read
read-Reads m {e} {a} h fits =
    let (r', p, done) = h.run (new e) [] (At-new e fits) in rw (p, read, finish-At done)

-- From a reader that has `e` and anything after it left, the decoder fails with `x`.
pub record Refuses {A : Type 0} (m : Decoder A) (e : Bytes) (x : DecodeError) : Type 0 where
  pub run : (r : Reader) (rest : Bytes) → At r (e ++ rest) → m r ≡ err x

pub Refuses-fail : {A : Type 0} (e : Bytes) (x : DecodeError) → Refuses (fail {A = A} x) e x
unfolding fail
Refuses-fail e x = record { run = λ r rest h. refl }

bind-err :
    {A B : Type 0} (m : Decoder A) (f : A → Decoder B) (r : Reader) (x : DecodeError)
    → m r ≡ err x
    → (m >>= f) r ≡ err x
unfolding ◌>>=◌
bind-err m f r x p = rw (p, ◌>>=◌)

-- The first step fails.
pub Refuses-first :
    {A B : Type 0} (m : Decoder A) (f : A → Decoder B) {e : Bytes} (d : Bytes) {x : DecodeError}
    → Refuses m e x
    → Refuses (m >>= f) (e ++ d) x
Refuses-first m f {e} d {x} h = record {
  run = λ r rest at. bind-err m f r x (h.run r (d ++ rest) (At-append e d rest at));
}

-- The first step reads its part, and what follows fails.
pub Refuses-next :
    {A B : Type 0} (m : Decoder A) (f : A → Decoder B) {e d : Bytes} {a : A} {x : DecodeError}
    → Reads m e a
    → Refuses (f a) d x
    → Refuses (m >>= f) (e ++ d) x
Refuses-next m f {e} {d} {a} hm hf = record {
  run = λ r rest at.
      let (r', p, at') = hm.run r (d ++ rest) (At-append e d rest at) in
      bind-ok m f r r' a p ∙ hf.run r' rest at';
}

-- A buffer on which the decoder fails is refused with its failure.
pub read-Refuses :
    {A : Type 0} (m : Decoder A) {e : Bytes} {x : DecodeError}
    → Refuses m e x
    → length e ≤ usize_max
    → read m e ≡ err x
unfolding read
read-Refuses m {e} {x} h fits = rw (h.run (new e) [] (At-new e fits), read)

-- The only step with bytes of its own fails.
pub Refuses-only :
    {A B : Type 0} (m : Decoder A) (f : A → Decoder B) {e : Bytes} {x : DecodeError}
    → Refuses m e x
    → Refuses (m >>= f) e x
Refuses-only m f {e} {x} h = record { run = λ r rest at. bind-err m f r x (h.run r rest at) }
