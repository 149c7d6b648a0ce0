-- ===== src/Tests/Services.antt =====
-- The service table from three entries of the system's.
use iftopcolor.Shared.{
  ℕ, ◌+◌, ◌*◌, ◌%◌, ◌/◌, ◌==◌, if◌then◌else◌, ◌≡◌, refl, List, [], ◌∷◌, Option, none, some, codes,
}
use iftopcolor.Stringmap.{Text}
use iftopcolor.Hash.Replace.{IsMap}
use iftopcolor.ServHash.{serv_table_create, serv_table_lookup, other_compare, other_fns}
use iftopcolor.ServHash.Lookup.{serv_table_create-IsMap}
use iftopcolor.ServHash.Init.{
  Servent, serv_table_init, last_name, or_name, names_it, serv_table_init-lookup,
}

-- The protocols of this system, by their first letter: TCP and SCTP.
abbrev protocols : Text → Option ℕ
protocols [] = none
protocols (c ∷ name) = if c == 116 then some 6 else if c == 115 then some 132 else none

abbrev swapped : ℕ → ℕ
swapped n = n % 256 * 256 + n / 256

abbrev entries : List Servent
entries =
    record { s_name = codes "http"; s_port = 20480; s_proto = codes "tcp" }
    ∷ record { s_name = codes "old"; s_port = 1792; s_proto = codes "sctp" }
    ∷ record { s_name = codes "lost"; s_port = 1792; s_proto = codes "ddp" }
    ∷ record { s_name = codes "echo"; s_port = 1792; s_proto = codes "sctp" }
    ∷ []

echo_found : last_name protocols swapped entries 7 132 ≡ some (codes "echo")
unfolding last_name or_name names_it other_compare
echo_found = refl

serv_table_init-lookup_example :
    let u = serv_table_init protocols swapped entries serv_table_create 1 in
    IsMap u.other
    × (serv_table_lookup u 7 132
        ≡ or_name
            (last_name protocols swapped entries 7 132)
            (serv_table_lookup serv_table_create 7 132))
serv_table_init-lookup_example =
    serv_table_init-lookup protocols swapped entries serv_table_create 1 7 132
      serv_table_create-IsMap
