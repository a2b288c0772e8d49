-- ===== src/Stun/Strerror.antt =====
-- stun/stunmessage.c, `stun_strerror`: the phrases of the error codes, as their bytes.
use libnice.Base.{ℕ, ◌==◌, if◌then◌else◌, List, [], ◌∷◌}

-- The table `tab`
unfoldable pub phrases : List (ℕ × List ℕ)
phrases =
    (
      300,
      0x54 ∷ 0x72 ∷ 0x79 ∷ 0x20 ∷ 0x61 ∷ 0x6c ∷ 0x74 ∷ 0x65 ∷ 0x72 ∷ 0x6e ∷ 0x61 ∷ 0x74 ∷ 0x65
          ∷ 0x20 ∷ 0x73 ∷ 0x65 ∷ 0x72 ∷ 0x76 ∷ 0x65 ∷ 0x72 ∷ [],
    )
    ∷ (400, 0x42 ∷ 0x61 ∷ 0x64 ∷ 0x20 ∷ 0x72 ∷ 0x65 ∷ 0x71 ∷ 0x75 ∷ 0x65 ∷ 0x73 ∷ 0x74 ∷ [])
    ∷ (401, 0x55 ∷ 0x6e ∷ 0x61 ∷ 0x75 ∷ 0x74 ∷ 0x68 ∷ 0x6f ∷ 0x72 ∷ 0x69 ∷ 0x7a ∷ 0x65 ∷ 0x64 ∷ [])
    ∷ (
      420,
      0x55 ∷ 0x6e ∷ 0x6b ∷ 0x6e ∷ 0x6f ∷ 0x77 ∷ 0x6e ∷ 0x20 ∷ 0x41 ∷ 0x74 ∷ 0x74 ∷ 0x72 ∷ 0x69
          ∷ 0x62 ∷ 0x75 ∷ 0x74 ∷ 0x65 ∷ [],
    )
    ∷ (
      437,
      0x41 ∷ 0x6c ∷ 0x6c ∷ 0x6f ∷ 0x63 ∷ 0x61 ∷ 0x74 ∷ 0x69 ∷ 0x6f ∷ 0x6e ∷ 0x20 ∷ 0x4d ∷ 0x69
          ∷ 0x73 ∷ 0x6d ∷ 0x61 ∷ 0x74 ∷ 0x63 ∷ 0x68 ∷ [],
    )
    ∷ (438, 0x53 ∷ 0x74 ∷ 0x61 ∷ 0x6c ∷ 0x65 ∷ 0x20 ∷ 0x4e ∷ 0x6f ∷ 0x6e ∷ 0x63 ∷ 0x65 ∷ [])
    ∷ (
      439,
      0x41 ∷ 0x63 ∷ 0x74 ∷ 0x69 ∷ 0x76 ∷ 0x65 ∷ 0x20 ∷ 0x44 ∷ 0x65 ∷ 0x73 ∷ 0x74 ∷ 0x69 ∷ 0x6e
          ∷ 0x61 ∷ 0x74 ∷ 0x69 ∷ 0x6f ∷ 0x6e ∷ 0x20 ∷ 0x41 ∷ 0x6c ∷ 0x72 ∷ 0x65 ∷ 0x61 ∷ 0x64 ∷ 0x79
          ∷ 0x20 ∷ 0x53 ∷ 0x65 ∷ 0x74 ∷ [],
    )
    ∷ (
      440,
      0x41 ∷ 0x64 ∷ 0x64 ∷ 0x72 ∷ 0x65 ∷ 0x73 ∷ 0x73 ∷ 0x20 ∷ 0x46 ∷ 0x61 ∷ 0x6d ∷ 0x69 ∷ 0x6c
          ∷ 0x79 ∷ 0x20 ∷ 0x6e ∷ 0x6f ∷ 0x74 ∷ 0x20 ∷ 0x53 ∷ 0x75 ∷ 0x70 ∷ 0x70 ∷ 0x6f ∷ 0x72 ∷ 0x74
          ∷ 0x65 ∷ 0x64 ∷ [],
    )
    ∷ (
      442,
      0x55 ∷ 0x6e ∷ 0x73 ∷ 0x75 ∷ 0x70 ∷ 0x70 ∷ 0x6f ∷ 0x72 ∷ 0x74 ∷ 0x65 ∷ 0x64 ∷ 0x20 ∷ 0x54
          ∷ 0x72 ∷ 0x61 ∷ 0x6e ∷ 0x73 ∷ 0x70 ∷ 0x6f ∷ 0x72 ∷ 0x74 ∷ 0x20 ∷ 0x50 ∷ 0x72 ∷ 0x6f ∷ 0x74
          ∷ 0x6f ∷ 0x63 ∷ 0x6f ∷ 0x6c ∷ [],
    )
    ∷ (
      443,
      0x49 ∷ 0x6e ∷ 0x76 ∷ 0x61 ∷ 0x6c ∷ 0x69 ∷ 0x64 ∷ 0x20 ∷ 0x49 ∷ 0x50 ∷ 0x20 ∷ 0x41 ∷ 0x64
          ∷ 0x64 ∷ 0x72 ∷ 0x65 ∷ 0x73 ∷ 0x73 ∷ [],
    )
    ∷ (444, 0x49 ∷ 0x6e ∷ 0x76 ∷ 0x61 ∷ 0x6c ∷ 0x69 ∷ 0x64 ∷ 0x20 ∷ 0x50 ∷ 0x6f ∷ 0x72 ∷ 0x74 ∷ [])
    ∷ (
      445,
      0x4f ∷ 0x70 ∷ 0x65 ∷ 0x72 ∷ 0x61 ∷ 0x74 ∷ 0x69 ∷ 0x6f ∷ 0x6e ∷ 0x20 ∷ 0x66 ∷ 0x6f ∷ 0x72
          ∷ 0x20 ∷ 0x54 ∷ 0x43 ∷ 0x50 ∷ 0x20 ∷ 0x4f ∷ 0x6e ∷ 0x6c ∷ 0x79 ∷ [],
    )
    ∷ (
      446,
      0x43 ∷ 0x6f ∷ 0x6e ∷ 0x6e ∷ 0x65 ∷ 0x63 ∷ 0x74 ∷ 0x69 ∷ 0x6f ∷ 0x6e ∷ 0x20 ∷ 0x41 ∷ 0x6c
          ∷ 0x72 ∷ 0x65 ∷ 0x61 ∷ 0x64 ∷ 0x79 ∷ 0x20 ∷ 0x45 ∷ 0x78 ∷ 0x69 ∷ 0x73 ∷ 0x74 ∷ 0x73 ∷ [],
    )
    ∷ (
      486,
      0x41 ∷ 0x6c ∷ 0x6c ∷ 0x6f ∷ 0x63 ∷ 0x61 ∷ 0x74 ∷ 0x69 ∷ 0x6f ∷ 0x6e ∷ 0x20 ∷ 0x51 ∷ 0x75
          ∷ 0x6f ∷ 0x74 ∷ 0x61 ∷ 0x20 ∷ 0x52 ∷ 0x65 ∷ 0x61 ∷ 0x63 ∷ 0x68 ∷ 0x65 ∷ 0x64 ∷ [],
    )
    ∷ (
      487,
      0x52 ∷ 0x6f ∷ 0x6c ∷ 0x65 ∷ 0x20 ∷ 0x63 ∷ 0x6f ∷ 0x6e ∷ 0x66 ∷ 0x6c ∷ 0x69 ∷ 0x63 ∷ 0x74 ∷ [],
    )
    ∷ (500, 0x53 ∷ 0x65 ∷ 0x72 ∷ 0x76 ∷ 0x65 ∷ 0x72 ∷ 0x20 ∷ 0x45 ∷ 0x72 ∷ 0x72 ∷ 0x6f ∷ 0x72 ∷ [])
    ∷ (
      507,
      0x49 ∷ 0x6e ∷ 0x73 ∷ 0x75 ∷ 0x66 ∷ 0x66 ∷ 0x69 ∷ 0x63 ∷ 0x69 ∷ 0x65 ∷ 0x6e ∷ 0x74 ∷ 0x20
          ∷ 0x43 ∷ 0x61 ∷ 0x70 ∷ 0x61 ∷ 0x63 ∷ 0x69 ∷ 0x74 ∷ 0x79 ∷ [],
    )
    ∷ (
      508,
      0x49 ∷ 0x6e ∷ 0x73 ∷ 0x75 ∷ 0x66 ∷ 0x66 ∷ 0x69 ∷ 0x63 ∷ 0x69 ∷ 0x65 ∷ 0x6e ∷ 0x74 ∷ 0x20
          ∷ 0x43 ∷ 0x61 ∷ 0x70 ∷ 0x61 ∷ 0x63 ∷ 0x69 ∷ 0x74 ∷ 0x79 ∷ [],
    )
    ∷ []

-- "Unknown error"
unfoldable pub unknown_error : List ℕ
unknown_error =
    0x55 ∷ 0x6e ∷ 0x6b ∷ 0x6e ∷ 0x6f ∷ 0x77 ∷ 0x6e ∷ 0x20 ∷ 0x65 ∷ 0x72 ∷ 0x72 ∷ 0x6f ∷ 0x72 ∷ []

-- The loop over the table
unfoldable pub phrase_of : List (ℕ × List ℕ) → ℕ → List ℕ
phrase_of [] code = unknown_error
phrase_of ((c, phrase) ∷ rest) code =
    let later = phrase_of rest code in if c == code then phrase else later

-- `stun_strerror`
unfoldable pub strerror : ℕ → List ℕ
strerror code = phrase_of phrases code
