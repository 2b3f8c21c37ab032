-- ===== src/FileSystem/Path.antt =====
-- `FileSystem::getCurrentPath`'s writing of names into the caller's buffer.
use mr_hak_os.Prelude.{ℕ, ◌+◌, List, [], ◌∷◌, ltb, ◌==◌, if◌then◌else◌, set}

-- The buffer and the next place to write.
pub record Output : Type 0 where
  pub buffer : List ℕ
  pub pos : ℕ

-- buffer[pos++] = c;
abbrev pub put : ℕ → Output → Output
put c o = record { buffer = set o.buffer o.pos c; pos = o.pos + 1 }

-- for (j = 0; j < strlen(name) && pos < limit; j++) buffer[pos++] = name[j];
unfoldable pub write_name : List ℕ → ℕ → Output → Output
write_name [] limit o = o
write_name (c ∷ name) limit o =
    let rest = write_name name limit (put c o) in
    if c == 0 then o else if ltb o.pos limit then rest else o

-- The separator behind a component that is not the last.
abbrev pub separate : List (List ℕ) → ℕ → Output → Output
separate [] limit o = o
separate (name ∷ names) limit o = if ltb o.pos limit then put b'/' o else o

-- for (i = depth - 1; i >= 0 && pos < limit; i--) { name, separator }
unfoldable pub write_names : List (List ℕ) → ℕ → Output → Output
write_names [] limit o = o
write_names (name ∷ names) limit o =
    let rest = write_names names limit (separate names limit (write_name name limit o)) in
    if ltb o.pos limit then rest else o
