-- ===== src/Connect/Addresses/Tests.antt =====
-- Runs of the parser of addresses.
use pecl_database_mysql_xdev.Common.{◌≡◌, refl, true, List, [], ◌∷◌, none, some, codes}
use pecl_database_mysql_xdev.Connect.Addresses.{parser, parse}
use pecl_database_mysql_xdev.Connect.Addresses.Scan.{Entry}
use pecl_database_mysql_xdev.Connect.Addresses.Loop.{IsOrdered, parse-IsOrdered}
use pecl_database_mysql_xdev.Connect.Addresses.Failover.{
  failed_with, connect_session, up_to, first_stop, EndsWith, connect_session-EndsWith,
}

run_list :
    parse (parser (codes "u:p@[ab, cd]/x"))
    ≡ some ((codes "u:p@ab/x", some 100) ∷ (codes "u:p@cd/x", some 99) ∷ [], none)
unfolding parser parse
run_list = refl

run_short : parse (parser (codes "u@[a,b]/x")) ≡ some ((codes "u@a/x", some 100) ∷ [], none)
unfolding parser parse
run_short = refl

run_priorities :
    parse (parser (codes "u@[(address=ab,priority=5),(address=cd,priority=7)]"))
    ≡ some ((codes "u@cd", some 7) ∷ (codes "u@ab", some 5) ∷ [], none)
unfolding parser parse
run_priorities = refl

parse-IsOrdered_example :
    IsOrdered (parse (parser (codes "u@[(address=ab,priority=5),(address=cd,priority=7)]")))
parse-IsOrdered_example =
    parse-IsOrdered (codes "u@[(address=ab,priority=5),(address=cd,priority=7)]")

abbrev two : List Entry
two = (codes "u@cd", some 7) ∷ (codes "u@ab", some 5) ∷ []

connect_session-EndsWith_example :
    ((connect_session (λ e. failed_with 2002) two).tried ≡ up_to (λ e. failed_with 2002) two)
    × EndsWith true
        (first_stop (λ e. failed_with 2002) two)
        (connect_session (λ e. failed_with 2002) two).ending
connect_session-EndsWith_example = connect_session-EndsWith (λ e. failed_with 2002) two
