-- ===== src/Tests/ChunkTests.antt =====
-- The chunker on small documents.
use membox.Base.{◌+◌, ◌≤◌, ◌≡◌, ◌⊎◌, String, List, [], ◌∷◌, All, length}
use membox.Base.Text.{join}
use membox.Chunk.Tokens.{est_tokens}
use membox.Chunk.Split.{pack}
use membox.Chunk.Bounds.{flatten, pack-groups}

abbrev paragraphs : List String
paragraphs = "alpha" ∷ "beta beta" ∷ "gamma" ∷ []

pack-groups_example :
    (flatten (pack 4 [] 0 paragraphs) ≡ paragraphs)
    × All
        (λ group. (length group ≡ 1) ⊎ (est_tokens (join "\n\n" group) + 1 ≤ 4 + length group))
        (pack 4 [] 0 paragraphs)
pack-groups_example = pack-groups 4 paragraphs

abbrev document : String
document = "intro\n## One\ntext\n## Two\nmore"
