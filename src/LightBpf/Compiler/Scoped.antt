-- ===== src/LightBpf/Compiler/Scoped.antt =====
-- The code that the methods of LightBPF/CompilerSet/Compiler.py are put together from keeps to its
-- labels, when its pieces do.
pub mod Protocol
pub mod Address
pub mod Transport
pub mod Keyword
pub mod Values
pub mod Boolean
use Prim.Native.String.{String}
use light_packet.LightBpf.Compiler.Platform.{Platform}
use light_packet.Base.{
  ℕ, zero, suc, ◌-◌, Bool, true, false, Option, none, some, List, [], ◌∷◌, ◌++◌, leb, if◌then◌else◌,
  ◌≡◌, ◌⊎◌, inl, inr, refl, append_assoc, Bool-cases,
}
use light_packet.Base.Exceptions.{Exception, Result, ok, raise, ◌>>=◌, key_error, runtime_error}
use light_packet.LightBpf.Compiler.Code.{
  Label, local, Item, insn, label, Compiler, Code, Emitted, emit, fail, ◌▸◌, reading, update,
  attempt, new_label, alloc_scratch, free_scratch,
}
use light_packet.LightBpf.Compiler.Scope.{
  IsIn, IsIn-left, IsIn-right, IsSubset, labels_of, scope, IsForward, IsForward-mono,
  IsForward-append, IsConsistent, Emits, IsScoped,
}

IsSubset-scope : (items : List Item) (after : List Label) → IsSubset after (scope items after)
IsSubset-scope items after l = IsIn-right l (labels_of items) after

-- Two pieces put together: the first one's code may jump to labels behind, to those that the second
-- piece is known to define whatever the state.
Emits-append :
    (after : List Label) (xs : List Item) (r : Emitted)
    → IsForward after xs
    → Emits after r
    → Emits after (r >>= λ second. ok (xs ++ second.0, second.1))
Emits-append after xs (raise e) p q = q
Emits-append after xs (ok (ys, c)) p q = (
  IsForward-append xs ys after
      (IsForward-mono after (scope ys after) xs (IsSubset-scope ys after) p) q.0,
  q.1,
)

Emits-after :
    (after : List Label) (r : Emitted) (q : Code)
    → Emits after r
    → IsScoped after q
    → Emits after (r >>= λ first. q first.1 >>= λ second. ok (first.0 ++ second.0, second.1))
Emits-after after (raise e) q h k = h
Emits-after after (ok (xs, c)) q h k = Emits-append after xs (q c) h.0 (k.emits c h.1)

pub ▸-IsScoped :
    {after : List Label} {p q : Code} → IsScoped after p → IsScoped after q → IsScoped after (p ▸ q)
unfolding ◌▸◌
▸-IsScoped {after} {p} {q} hp hq = record {
  emits = λ c h. Emits-after after (p c) q (hp.emits c h) hq;
}

-- A piece that ends at a label before another.
Emits-label :
    (l : Label) (after : List Label) (xs : List Item) (r : Emitted)
    → IsForward (l ∷ after) xs
    → Emits after r
    → Emits after (r >>= λ second. ok (xs ++ label l ∷ second.0, second.1))
Emits-label l after xs (raise e) p q = q
Emits-label l after xs (ok (ys, c)) p q = (
  IsForward-append xs (label l ∷ ys) after
      (IsForward-mono (l ∷ after) (scope (label l ∷ ys) after) xs within p) q.0,
  q.1,
)
  where
    within : IsSubset (l ∷ after) (scope (label l ∷ ys) after)
    within m (inl e) = inl e
    within m (inr at) = inr (IsSubset-scope ys after m at)

abbrev labelled : Label → List Item × Compiler → Emitted
labelled l second = ok (label l ∷ second.0, second.1)

Emits-join :
    (l : Label) (after : List Label) (r : Emitted) (q : Code)
    → Emits (l ∷ after) r
    → IsScoped after q
    → Emits after (
        r >>= λ first.
        (emit (label l ∷ []) ▸ q) first.1 >>= λ second. ok (first.0 ++ second.0, second.1))
unfolding emit ◌▸◌
Emits-join l after (raise e) q h k = h
Emits-join l after (ok (xs, c)) q h k = last (q c) (k.emits c h.1)
  where
    last :
        (r : Emitted)
        → Emits after r
        → Emits after
            ((r >>= λ second. labelled l second) >>= λ second. ok (xs ++ second.0, second.1))
    last (raise e) g = g
    last (ok (ys, c')) g = Emits-label l after xs (ok (ys, c')) h.0 g

pub join-IsScoped :
    {l : Label} {after : List Label} {p q : Code}
    → IsScoped (l ∷ after) p
    → IsScoped after q
    → IsScoped after (p ▸ emit (label l ∷ []) ▸ q)
unfolding ◌▸◌
join-IsScoped {l} {after} {p} {q} hp hq = record {
  emits = λ c h. Emits-join l after (p c) q (hp.emits c h) hq;
}

pub emit-IsScoped :
    {after : List Label} → (items : List Item) → IsForward after items → IsScoped after (emit items)
unfolding emit
emit-IsScoped items p = record { emits = λ c h. (p, h) }

pub fail-IsScoped :
    {after : List Label} {e : Exception} → (e ≡ key_error → ⊥) → IsScoped after (fail e)
unfolding fail
fail-IsScoped p = record { emits = λ c h. p }

pub reading-IsScoped :
    {after : List Label}
    → (k : Compiler → Code) → ((c : Compiler) → IsScoped after (k c))
    → IsScoped after (reading k)
unfolding reading
reading-IsScoped k p = record { emits = λ c h. (p c).emits c h }

pub update-IsScoped :
    {after : List Label}
    → (f : Compiler → Compiler) → ((c : Compiler) → IsConsistent c → IsConsistent (f c))
    → IsScoped after (update f)
unfolding update
update-IsScoped f p = record { emits = λ c h. (tt, p c h) }

pub new_label-IsScoped :
    {after : List Label} {k : Label → Code}
    → ((l : Label) → IsScoped after (k l))
    → IsScoped after (new_label k)
unfolding new_label
new_label-IsScoped p = record {
  emits = λ c h.
      (p (local (suc c.label_counter))).emits (record c { label_counter = suc c.label_counter }) h;
}

pub alloc_scratch-IsScoped :
    {after : List Label} {k : ℕ → Code}
    → ((n : ℕ) → IsScoped after (k n))
    → IsScoped after (alloc_scratch k)
unfolding alloc_scratch
alloc_scratch-IsScoped p = record {
  emits = λ c h. elim (Bool-cases (leb 16 c.scratch_counter)) [
    | inl e ↦ rw e (λ d. cc)
    | inr e ↦
        rw e ((p c.scratch_counter).emits (record c { scratch_counter = suc c.scratch_counter }) h)
  ];
}

pub free_scratch-IsScoped : {after : List Label} → IsScoped after free_scratch
unfolding free_scratch
free_scratch-IsScoped = record { emits = λ c h. (tt, h) }

-- A library's call raises no KeyError.
abbrev pub IsKnown {ℓ} : {A : Type ℓ} → Result A → Type 0
IsKnown (ok a) = Unit
IsKnown (raise e) = e ≡ key_error → ⊥

pub IsKnown-bind :
    {A B : Type 0} (r : Result A) (k : A → Result B)
    → IsKnown r
    → ((a : A) → IsKnown (k a))
    → IsKnown (r >>= k)
IsKnown-bind (ok a) k h hk = hk a
IsKnown-bind (raise e) k h hk = h

pub option-IsKnown :
    {A B : Type 0} (o : Option A) (r : Result B) (k : A → Result B)
    → IsKnown r
    → ((a : A) → IsKnown (k a))
    → IsKnown (elim o [ none ↦ r | some a ↦ k a ])
option-IsKnown none r k hr hk = hr
option-IsKnown (some a) r k hr hk = hk a

-- What the compiler calls of the standard library raises errors of its own, of which none is a
-- KeyError: OSError and ValueError, with their subclasses.
pub record IsKeyErrorFree (platform : Platform) : Type 0 where
  pub inet_aton_known : (s : String) → IsKnown (platform.inet_aton s)
  pub ipv6_address_known : (s : String) → IsKnown (platform.ipv6_address s)
  pub mac_address_known : (s : String) → IsKnown (platform.mac_address s)
  pub ipv4_network_known :
      (s : String) (mask : Option String) → IsKnown (platform.ipv4_network s mask)
  pub ipv6_network_known : (s : String) → IsKnown (platform.ipv6_network s)
  pub int_of_text_known : (s : String) → IsKnown (platform.int_of_text s)

pub attempt-IsScoped :
    {A : Type 0} {after : List Label}
    → (r : Result A) {k : A → Code} → IsKnown r
    → ((a : A) → IsScoped after (k a))
    → IsScoped after (attempt r k)
unfolding attempt
attempt-IsScoped (ok a) known p = record { emits = λ c h. (p a).emits c h }
attempt-IsScoped (raise e) known p = record { emits = λ c h. known }

-- Code under a test, and by an option.
pub if-IsScoped :
    {after : List Label} (b : Bool) {p q : Code}
    → IsScoped after p
    → IsScoped after q
    → IsScoped after (if b then p else q)
if-IsScoped true hp hq = hp
if-IsScoped false hp hq = hq

pub option-IsScoped :
    {A : Type 0} {after : List Label} (o : Option A) {p : Code} {k : A → Code}
    → IsScoped after p
    → ((a : A) → IsScoped after (k a))
    → IsScoped after (elim o [ none ↦ p | some a ↦ k a ])
option-IsScoped none hp hk = hp
option-IsScoped (some a) hp hk = hk a
