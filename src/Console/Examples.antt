-- ===== src/Console/Examples.antt =====
-- Tests of the console's lines.
use os_project2_nach_os.Base.{◌≡◌, refl, [], ◌∷◌, none, some}
use os_project2_nach_os.Console.{read_bytes, read}

-- EOF is skipped, and the newline ends the line.
one_line :
    read 4 (97 ∷ 255 ∷ 98 ∷ 10 ∷ 99 ∷ [])
    ≡ some (record { into = 97 ∷ 98 ∷ 0 ∷ 0 ∷ []; returned = some 2; unread = 99 ∷ [] })
unfolding read read_bytes
one_line = refl

-- CTRL-A gives -1.
end_of_stream :
    read 4 (97 ∷ 1 ∷ [])
    ≡ some (record { into = 97 ∷ 0 ∷ 0 ∷ 0 ∷ []; returned = none; unread = [] })
unfolding read read_bytes
end_of_stream = refl

still_waits : read 4 (97 ∷ 98 ∷ []) ≡ none
unfolding read read_bytes
still_waits = refl
