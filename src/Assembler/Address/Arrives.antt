-- ===== src/Assembler/Address/Arrives.antt =====
-- What a function of the second pass does to the address, the position and the count of errors.
use cputwo.Base.{ℕ, ◌^◌, ◌<◌, ◌≤◌, ◌≡◌, Bool, true, false, refl, arith, ◌∙◌}
use cputwo.Assembler.State.{Asm, asm_error, go_wrong}

-- No error has been taken back.
pub record Later (st st' : Asm) : Type 0 where
  pub errors : st.error_count ≤ st'.error_count
  pub wrong : st.went_wrong ≡ true → st'.went_wrong ≡ true

-- Nothing has gone wrong from one state to the other.
pub record Clean (st st' : Asm) : Type 0 where
  pub errors : st'.error_count ≡ st.error_count
  pub wrong : st'.went_wrong ≡ false

-- `st'` is at the address `addr`, if nothing has gone wrong, and at that position of the output if
-- `st` is at its own; and the address stays a 32-bit word.
pub record Arrives (addr : ℕ) (st st' : Asm) : Type 0 where
  pub later : Later st st'
  pub org : Clean st st' → st'.org_addr ≡ addr
  pub pos : Clean st st' → st.write_pos ≡ st.org_addr → st'.write_pos ≡ st'.org_addr
  pub in_word : st.org_addr < 2 ^ 32 → st'.org_addr < 2 ^ 32

pub Later-refl : (st : Asm) → Later st st
Later-refl st = record { errors = omega arith; wrong = λ e. e }

pub Later-trans : {a b c : Asm} → Later a b → Later b c → Later a c
Later-trans p q = record {
  errors = let h = p.errors in let k = q.errors in omega arith;
  wrong = λ e. q.wrong (p.wrong e);
}

-- Where a whole stretch is clean, so are its parts.
pub Clean-parts : {a b c : Asm} → Later a b → Later b c → Clean a c → Clean a b × Clean b c
Clean-parts {a} {b} {c} p q k = (
  record {
    errors = let x = p.errors in let y = q.errors in let z = k.errors in omega arith;
    wrong = not_yet b.went_wrong q.wrong k.wrong;
  },
  record {
    errors = let x = p.errors in let y = q.errors in let z = k.errors in omega arith;
    wrong = k.wrong;
  },
)
  where
    not_yet : (w : Bool) {w' : Bool} → (w ≡ true → w' ≡ true) → w' ≡ false → w ≡ false
    not_yet true f e = let t = f refl in cc
    not_yet false f e = refl

pub Arrives-trans : {x y : ℕ} {a b c : Asm} → Arrives x a b → Arrives y b c → Arrives y a c
Arrives-trans {x} {y} {a} {b} {c} p q = record {
  later = Later-trans p.later q.later;
  org = λ k. q.org (Clean-parts p.later q.later k).1;
  pos = λ k e. let parts = Clean-parts p.later q.later k in q.pos parts.1 (p.pos parts.0 e);
  in_word = λ h. q.in_word (p.in_word h);
}

pub Arrives-at : {x y : ℕ} {a b : Asm} → x ≡ y → Arrives x a b → Arrives y a b
Arrives-at e p = record {
  later = p.later;
  org = λ k. p.org k ∙ e;
  pos = p.pos;
  in_word = p.in_word;
}

pub Arrives-refl : (st : Asm) → Arrives st.org_addr st st
Arrives-refl st = record {
  later = Later-refl st;
  org = λ k. refl;
  pos = λ k e. e;
  in_word = λ h. h;
}

pub asm_error-Arrives : (addr : ℕ) (st : Asm) → Arrives addr st (asm_error st)
unfolding asm_error
asm_error-Arrives addr st = record {
  later = record { errors = omega arith; wrong = λ e. e };
  org = λ k. absurd (let z = k.errors in omega arith);
  pos = λ k e. e;
  in_word = λ h. h;
}

pub go_wrong-Arrives : (addr : ℕ) (st : Asm) → Arrives addr st (go_wrong st)
unfolding go_wrong
go_wrong-Arrives addr st = record {
  later = record { errors = omega arith; wrong = λ e. refl };
  org = λ k. absurd (let z = k.wrong in cc);
  pos = λ k e. e;
  in_word = λ h. h;
}

unclean : (st : Asm) → Clean st (asm_error st) → ⊥
unfolding asm_error
unclean st k = let z = k.errors in omega arith

-- An error that is reported before something else makes the whole unclean.
pub after_error :
    (addr : ℕ) {x : ℕ} {st st' : Asm} → Arrives x (asm_error st) st' → Arrives addr st st'
after_error addr {st = st} p =
    let e = asm_error-Arrives addr st in
    record {
      later = Later-trans e.later p.later;
      org = λ k. absurd (unclean st (Clean-parts e.later p.later k).0);
      pos = λ k h. absurd (unclean st (Clean-parts e.later p.later k).0);
      in_word = λ h. p.in_word (e.in_word h);
    }
