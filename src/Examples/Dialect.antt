-- ===== src/Examples/Dialect.antt =====
-- Queries at concrete inputs.
use vpstools.Base.{◌≡◌, refl, String, ◌==◌}
use vpstools.Dialect.Rebind.{
  rebind, rebind_from, switch, kind_of, copy_quoted, copy_until, copy_block_comment, placeholder,
  decimal, postgresql, size,
}
use vpstools.Dialect.Lexer.{parts, plain, render}
use vpstools.Dialect.Rebound.{rebind-parts}

abbrev query : String
query = "SELECT ?, 'it''s ?', \"?\" FROM [t?] -- ?\nWHERE a ?? b /* ? */ AND c = ?"

numbered :
    rebind postgresql query
    ≡ "SELECT $1, 'it''s ?', \"?\" FROM [t?] -- ?\nWHERE a ? b /* ? */ AND c = $2"
unfolding rebind rebind_from switch kind_of copy_quoted copy_until copy_block_comment placeholder
    decimal size
numbered = refl

-- PostgreSQL takes the whole text for a comment that has no parameter.
slash_star_slash : rebind postgresql "/*/ ? */" ≡ "/*/ $1 */"
unfolding rebind rebind_from switch kind_of copy_quoted copy_until copy_block_comment placeholder
    decimal size
slash_star_slash = refl

rebind-parts_example :
    rebind postgresql query ≡ render (postgresql == postgresql) 1 (parts plain query)
rebind-parts_example = rebind-parts postgresql query refl
