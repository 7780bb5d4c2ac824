-- ===== src/LightBpf/Compiler/Total.antt =====
-- The compiler of LightBPF/CompilerSet/Compiler.py with the assembler, the optimiser and the emulator:
-- what it compiles is a filter that ends with a verdict on every packet.
use light_packet.Base.{
  ℕ, suc, ◌+◌, Bool, true, false, some, List, [], ◌∷◌, map, length, if◌then◌else◌, ◌≡◌, ◌≢◌, refl,
  ap, sym, ◌⊎◌, inl, inr, arith, get_elem?, All,
}
use light_packet.Base.Int.{ℤ, pos}
use light_packet.Base.Exceptions.{Result, ok, raise, ◌>>=◌, >>=-eq-ok, ok-eq, key_error}
use light_packet.LightBpf.Opcode.{bpf_max_buf_len}
use light_packet.LightBpf.Instruction.{Instruction}
use light_packet.LightBpf.Ast.{Node}
use light_packet.LightBpf.Emulator.{returned}
use light_packet.LightBpf.Emulator.Forward.{IsUnsigned, execute_total}
use light_packet.LightBpf.Emulator.Verdict.{ReturnsOnly, execute-returned}
use light_packet.LightBpf.Simulation.{Executes}
use light_packet.LightBpf.Peephole
use light_packet.LightBpf.Peephole.Optimize.{optimize-SameOutcomes}
use light_packet.LightBpf.Compiler.Code.{accept, reject, Item, initial, Emitted}
use light_packet.LightBpf.Compiler.Platform.{Platform}
use light_packet.LightBpf.Compiler.Boolean.{compile_bool}
use light_packet.LightBpf.Compiler.Assemble.{
  Symbolic, clean, with_returns, label_map, patch_from, finish, assemble_and_backpatch, compile,
}
use light_packet.LightBpf.Compiler.Assemble.Placed.{
  IsFinal, AllFrom-get_elem?, IsPlaced, with_returns-IsPlaced,
}
use light_packet.LightBpf.Compiler.Assemble.Patch.{Gives, Gives-bind, patch_from-IsFinal}
use light_packet.LightBpf.Compiler.Assemble.Resolve.{Patched}
use light_packet.LightBpf.Compiler.Scope.{Emits, IsForward}
use light_packet.LightBpf.Compiler.Scoped.{IsKeyErrorFree}
use light_packet.LightBpf.Compiler.Scoped.Boolean.{compile_bool-IsBranch}

-- The two verdicts: the packet is dropped, or kept up to the snapshot's length.
abbrev pub IsVerdict : ℤ → Type 0
IsVerdict v = (v ≡ pos 0) ⊎ (v ≡ pos bpf_max_buf_len)

abbrev IsFilter : List Instruction → Type 0
IsFilter code = All IsUnsigned code × All (ReturnsOnly IsVerdict (inl refl)) code

finish-IsFilter :
    (code : List Symbolic)
    → ((j : ℕ) (s : Symbolic) → get_elem? code j ≡ some s → IsFinal s)
    → IsFilter (map finish code)
unfolding finish
finish-IsFilter [] h = (tt, tt)
finish-IsFilter (s ∷ code) h =
    let final = h 0 s refl in
    let (signs, verdicts) = finish-IsFilter code (λ j t e. h (suc j) t e) in
    (
      (record { jt_sign = final.jt_sign; jf_sign = final.jf_sign; k_sign = final.k_sign }, signs),
      (final.verdict, verdicts),
    )

-- Before the backpatching every instruction is placed.
clean-Patched :
    (items : List Item)
    → IsForward (accept ∷ reject ∷ []) items
    → Patched (with_returns items) 0 (clean (with_returns items))
clean-Patched items h j s e =
    let p =
      AllFrom-get_elem? (IsPlaced (label_map 0 (with_returns items))) 0 (clean (with_returns items))
        j s (with_returns-IsPlaced items h) e in
    let here : 0 + j ≡ j = omega arith in (p.final, λ at. rw here at p.ahead)

assemble_and_backpatch-Gives :
    (items : List Item)
    → IsForward (accept ∷ reject ∷ []) items
    → Gives IsFilter (assemble_and_backpatch items)
unfolding assemble_and_backpatch
assemble_and_backpatch-Gives items h =
    let whole = with_returns items in
    Gives-bind _ IsFilter (patch_from whole (length (clean whole)) 0 (clean whole)) _
      (patch_from-IsFinal whole (length (clean whole)) 0 (clean whole) (omega arith)
        (clean-Patched items h))
      finish-IsFilter

-- The code of a filter goes to the two labels of its ends.
pub compile_bool-Emits :
    (platform : Platform) (linktype : ℕ) (ast_root : Node)
    → IsKeyErrorFree platform
    → Emits (accept ∷ reject ∷ []) (compile_bool platform ast_root accept reject (initial linktype))
compile_bool-Emits platform linktype ast_root free =
    ((compile_bool-IsBranch platform free ast_root).scoped (accept ∷ reject ∷ []) accept reject
        (inl refl) (inr (inl refl))).emits
      (initial linktype) tt

-- A filter ends with a verdict.
IsFilter-IsVerdict :
    (code : List Instruction) (packet : List ℕ)
    → IsFilter code
    → (v : ℤ) × IsVerdict v × Executes code packet (returned v)
IsFilter-IsVerdict code packet (signs, verdicts) =
    let (v, e) = execute_total code packet (suc (length code)) signs (omega arith) in
    (
      v,
      execute-returned IsVerdict (inl refl) code packet verdicts (suc (length code)) v e,
      (suc (length code), e),
    )

optimize-IsVerdict :
    (optimize : Bool) (code : List Instruction) (packet : List ℕ)
    → IsFilter code
    → (v : ℤ) × IsVerdict v
      × Executes (if optimize then Peephole.optimize code else code) packet (returned v)
optimize-IsVerdict false code packet h = IsFilter-IsVerdict code packet h
optimize-IsVerdict true code packet h =
    let (v, verdict, e) = IsFilter-IsVerdict code packet h in
    (v, verdict, (optimize-SameOutcomes packet code (returned v)).0 e)

-- Where no call of the library raises a KeyError: when the compiler gives a program for a tree, with
-- or without the optimiser, the emulator returns one of the two verdicts, 0 and the snapshot's length,
-- for it on every packet.
pub compile-IsVerdict :
    (platform : Platform) (linktype : ℕ) (optimize : Bool) (ast_root : Node) (packet : List ℕ)
    (code : List Instruction)
    → IsKeyErrorFree platform
    → compile platform linktype optimize ast_root ≡ ok code
    → (v : ℤ) × IsVerdict v × Executes code packet (returned v)
unfolding compile
compile-IsVerdict platform linktype optimize ast_root packet code free e =
    let (emitted, e1, rest) =
      >>=-eq-ok (compile_bool platform ast_root accept reject (initial linktype)) _ e in
    let (plain_code, e2, last) = >>=-eq-ok (assemble_and_backpatch emitted.0) _ rest in
    let scoped = rw e1 at (compile_bool-Emits platform linktype ast_root free) in
    let filter = rw e2 at (assemble_and_backpatch-Gives emitted.0 scoped.0) in
    rw (sym (ok-eq last)) (optimize-IsVerdict optimize plain_code packet filter)

ends-ne-key_error :
    (r : Result (List Instruction)) (optimized : List Instruction → List Instruction)
    → Gives IsFilter r
    → (r >>= λ code. ok (optimized code)) ≢ raise key_error
ends-ne-key_error (ok code) optimized g e = ground arith
ends-ne-key_error (raise x) optimized g e = ground arith

emitted-ne-key_error :
    (r : Emitted) (optimized : List Instruction → List Instruction)
    → Emits (accept ∷ reject ∷ []) r
    → (r >>= λ emitted. assemble_and_backpatch emitted.0 >>= λ code. ok (optimized code))
      ≢ raise key_error
emitted-ne-key_error (raise x) optimized h e = h (cc)
emitted-ne-key_error (ok (items, c)) optimized h e =
    ends-ne-key_error (assemble_and_backpatch items) optimized
      (assemble_and_backpatch-Gives items h.0) e

-- Where no call of the library raises a KeyError, the compiler raises none for any tree, with or
-- without the optimiser.
pub compile-ne-key_error :
    (platform : Platform) (linktype : ℕ) (optimize : Bool) (ast_root : Node)
    → IsKeyErrorFree platform
    → compile platform linktype optimize ast_root ≢ raise key_error
unfolding compile
compile-ne-key_error platform linktype optimize ast_root free =
    emitted-ne-key_error (compile_bool platform ast_root accept reject (initial linktype))
      (λ code. if optimize then Peephole.optimize code else code)
      (compile_bool-Emits platform linktype ast_root free)

-- The optimiser runs on the code that the compiler gives without it.
pub compile-optimize :
    (platform : Platform) (linktype : ℕ) (ast_root : Node) (code : List Instruction)
    → compile platform linktype false ast_root ≡ ok code
    → compile platform linktype true ast_root ≡ ok (Peephole.optimize code)
unfolding compile
compile-optimize platform linktype ast_root code e =
    let (emitted, e1, rest) =
      >>=-eq-ok (compile_bool platform ast_root accept reject (initial linktype)) _ e in
    let (assembled, e2, last) = >>=-eq-ok (assemble_and_backpatch emitted.0) _ rest in
    rw e1 (rw e2 (ap (λ c. ok (Peephole.optimize c)) (ok-eq last)))
