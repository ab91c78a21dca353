-- ===== src/Regex/Compile/Regcomp.antt =====
-- lib/libc_regex.c, `regcomp`.
use lamp_userspace.Prelude.{
  ℕ, ◌+◌, ◌*◌, Bool, false, not, ◌&&◌, List, [], ◌==◌, if◌then◌else◌, get_or, length, none, some,
}
use lamp_userspace.Regex.{Op, CompileFlags, Regex}
use lamp_userspace.Regex.Compile.{
  Compiler, Step, ok, minus_one, M, ◌>>=◌, ◌>>◌, pure, get, fail_with, return_minus_one, re_emit,
}
use lamp_userspace.Regex.Compile.Pattern.{emit_save, re_compile_alternation, reg_badpat}

-- Fuel for the calls of `re_compile_sequence` and `re_compile_alternation` on a pattern.
abbrev pub pattern_fuel : List ℕ → ℕ
pattern_fuel regex = 4 * length regex + 8

-- What `regcomp` returns and leaves in `*preg`.
pub data Compiled : Type 0 where
  compiled : ℕ → Regex → Compiled
  no_fuel : Compiled

abbrev no_flags : CompileFlags
no_flags = record { extended = false; icase = false; newline = false; nosub = false }

abbrev cleared : Regex
cleared = record { re_program = none; re_nsub = 0; re_cflags = no_flags }

abbrev pub start_compiler : List ℕ → CompileFlags → Compiler
start_compiler regex cflags = record {
  program = [];
  capacity = 0;
  cursor = regex;
  cflags = cflags;
  groups = 0;
  error = 0;
}

module _ (grow : ℕ → Bool) where
  -- The whole of the compilation, for a pattern that is not null.
  compile_pattern : List ℕ → M (Unit {0})
  unfolding emit_save re_compile_alternation re_emit
  compile_pattern regex = do
    emit_save grow 0
    re_compile_alternation grow (pattern_fuel regex) false
    c ← get
    (if c.error == 0 && not (get_or c.cursor 0 0 == 0) then fail_with reg_badpat else pure tt)
    c' ← get
    (if not (c'.error == 0) then return_minus_one else pure tt)
    emit_save grow 1
    _ ← re_emit grow Op.match
    pure tt

  unfoldable pub regcomp : List ℕ → CompileFlags → Compiled
  unfolding compile_pattern
  regcomp regex cflags = elim (compile_pattern regex (start_compiler regex cflags)) [
    | ok _ c ↦
        compiled 0 (record { re_program = some c.program; re_nsub = c.groups; re_cflags = cflags })
    | minus_one c ↦ compiled c.error cleared
    | Step.no_fuel ↦ Compiled.no_fuel
  ]
