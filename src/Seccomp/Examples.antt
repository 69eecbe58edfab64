-- ===== src/Seccomp/Examples.antt =====
-- An interpreter that has the documented meaning, and the filter run on it.
use urvirt.Common.{
  ℕ, zero, suc, ◌+◌, ◌/◌, ◌%◌, ◌^◌, ◌≡◌, refl, Bool, true, false, ◌&&◌, ◌==◌, leb, ltb,
  if◌then◌else◌, arith, ap, sym, ◌∙◌, List, [], ◌∷◌, some,
}
use urvirt.Common.Lists.{get_elem?}
use urvirt.Seccomp.{SockFilter, ld_w_abs, jeq, jge, jgt, ret_allow, ret_trap, gen_addr_filter}
use urvirt.Seccomp.Laws.{Bpf, gen_addr_filter_exact}

-- The verdict of the filter from its instruction number `pc` on. Jumps only go forward, so the rest
-- of the list is enough.
eval : ℕ → List SockFilter → ℕ → ℕ → Bool
eval ip [] pc acc = false
eval ip (i ∷ f) (suc pc) acc = eval ip f pc acc
eval ip (ld_w_abs o ∷ f) zero acc =
    eval ip f 0 (if o == 8 then ip % 2 ^ 32 else ip / 2 ^ 32 % 2 ^ 32)
eval ip (jeq k jt jf ∷ f) zero acc = eval ip f (if acc == k then jt else jf) acc
eval ip (jge k jt jf ∷ f) zero acc = eval ip f (if leb k acc then jt else jf) acc
eval ip (jgt k jt jf ∷ f) zero acc = eval ip f (if ltb k acc then jt else jf) acc
eval ip (ret_allow ∷ f) zero acc = true
eval ip (ret_trap ∷ f) zero acc = false

abbrev run : List SockFilter → ℕ → ℕ → ℕ → Bool
run f ip pc acc = eval ip f pc acc

-- What instruction `i` at `pc` does.
abbrev next : ℕ → SockFilter → List SockFilter → ℕ → ℕ → Bool
next ip (ld_w_abs o) f pc acc =
    eval ip f (pc + 1) (if o == 8 then ip % 2 ^ 32 else ip / 2 ^ 32 % 2 ^ 32)
next ip (jeq k jt jf) f pc acc = eval ip f (pc + 1 + (if acc == k then jt else jf)) acc
next ip (jge k jt jf) f pc acc = eval ip f (pc + 1 + (if leb k acc then jt else jf)) acc
next ip (jgt k jt jf) f pc acc = eval ip f (pc + 1 + (if ltb k acc then jt else jf)) acc
next ip ret_allow f pc acc = true
next ip ret_trap f pc acc = false

-- From an instruction inside the list as from its head.
eval-suc :
    (ip : ℕ) (i : SockFilter) (f : List SockFilter) (n pc a : ℕ)
    → n ≡ suc pc
    → eval ip (i ∷ f) n a ≡ eval ip f pc a
unfolding eval
eval-suc ip (ld_w_abs o) f n pc a e = ap (λ t. eval ip (ld_w_abs o ∷ f) t a) e
eval-suc ip i f n pc a e = ap (λ t. eval ip (i ∷ f) t a) e

next-zero :
    (ip : ℕ) (i : SockFilter) (f : List SockFilter) (acc : ℕ)
    → eval ip (i ∷ f) 0 acc ≡ next ip i (i ∷ f) 0 acc
unfolding eval
next-zero ip (ld_w_abs o) f acc = refl
next-zero ip (jeq k jt jf) f acc = sym (eval-suc ip (jeq k jt jf) f _ _ acc (omega arith))
next-zero ip (jge k jt jf) f acc = sym (eval-suc ip (jge k jt jf) f _ _ acc (omega arith))
next-zero ip (jgt k jt jf) f acc = sym (eval-suc ip (jgt k jt jf) f _ _ acc (omega arith))
next-zero ip ret_allow f acc = refl
next-zero ip ret_trap f acc = refl

next-suc :
    (ip : ℕ) (i j : SockFilter) (f : List SockFilter) (pc acc : ℕ)
    → next ip i f pc acc ≡ next ip i (j ∷ f) (suc pc) acc
next-suc ip (ld_w_abs o) j f pc acc = sym (eval-suc ip j f _ _ _ (omega arith))
next-suc ip (jeq k jt jf) j f pc acc = sym (eval-suc ip j f _ _ acc (omega arith))
next-suc ip (jge k jt jf) j f pc acc = sym (eval-suc ip j f _ _ acc (omega arith))
next-suc ip (jgt k jt jf) j f pc acc = sym (eval-suc ip j f _ _ acc (omega arith))
next-suc ip ret_allow j f pc acc = refl
next-suc ip ret_trap j f pc acc = refl

eval-next :
    (ip acc : ℕ) (i : SockFilter) (f : List SockFilter) (pc : ℕ)
    → get_elem? f pc ≡ some i
    → eval ip f pc acc ≡ next ip i f pc acc
eval-next ip acc i [] pc e = cc
eval-next ip acc i (j ∷ f) zero e =
    let same : j ≡ i = cc in next-zero ip j f acc ∙ ap (λ t. next ip t (j ∷ f) 0 acc) same
eval-next ip acc i (j ∷ f) (suc pc) e =
    eval-suc ip j f (suc pc) pc acc refl ∙ eval-next ip acc i f pc e ∙ next-suc ip i j f pc acc

pub interpreter : Bpf
interpreter = record {
  ip_low = 8;
  run = run;
  load_low = λ f ip pc acc e. eval-next ip acc _ f pc e;
  load_high = λ f ip pc acc e. eval-next ip acc _ f pc e;
  jump_eq = λ f ip pc acc e. eval-next ip acc _ f pc e;
  jump_ge = λ f ip pc acc e. eval-next ip acc _ f pc e;
  jump_gt = λ f ip pc acc e. eval-next ip acc _ f pc e;
  allow = λ f ip pc acc e. eval-next ip acc _ f pc e;
  trap = λ f ip pc acc e. eval-next ip acc _ f pc e;
}

pub interpreter-ip_low : interpreter.ip_low ≡ 8
unfolding interpreter
interpreter-ip_low = refl

-- The stub between 0x2aaaaaa000 and 0x2aaaaad000.
gen_addr_filter_exact_example :
    interpreter.run (gen_addr_filter interpreter.ip_low 0x2aaaaaa000 0x2aaaaad000) 0x2aaaaab123 0 0
    ≡ leb 0x2aaaaaa000 0x2aaaaab123 && ltb 0x2aaaaab123 0x2aaaaad000
gen_addr_filter_exact_example =
    gen_addr_filter_exact interpreter 0x2aaaaaa000 0x2aaaaad000 0x2aaaaab123 0 (omega arith)
      (omega arith) (omega arith)

allowed_inside : run (gen_addr_filter 8 0x2aaaaaa000 0x2aaaaad000) 0x2aaaaab123 0 0 ≡ true
unfolding eval gen_addr_filter
allowed_inside = refl

trapped_at_end : run (gen_addr_filter 8 0x2aaaaaa000 0x2aaaaad000) 0x2aaaaad000 0 0 ≡ false
unfolding eval gen_addr_filter
trapped_at_end = refl
