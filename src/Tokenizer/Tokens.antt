-- ===== src/Tokenizer/Tokens.antt =====
-- Token::TokenType, Token and the reserved words of xmysqlnd/crud_parsers/legacy_tokenizer.{h,cc}.
use pecl_database_mysql_xdev.Common.{
  ℕ, if◌then◌else◌, List, [], ◌∷◌, Option, none, some, Bytes, codes, iequals,
}

-- `Token::TokenType`. The names that are words of the language end in `_`.
pub data TokenType : Type 0 where
  not and or xor is lparen rparen lsqbracket rsqbracket between true_ t_null : TokenType
  false_ in_ like interval regexp escape ident lstring lnum dot comma eq ne gt : TokenType
  ge lt le bitand bitor bitxor lshift rshift plus minus mul div hex bin neg : TokenType
  bang microsecond second minute hour day week month quarter year placeholder : TokenType
  doublestar mod_ as_ asc desc cast character set charset ascii unicode byte : TokenType
  binary char nchar date datetime time decimal signed unsigned integer linteger : TokenType
  dollar json colon lcurly rcurly arrow quote : TokenType

-- The numbers of the enum, by which types are compared.
unfoldable pub value : TokenType → ℕ
value not = 1
value and = 2
value or = 3
value xor = 4
value is = 5
value lparen = 6
value rparen = 7
value lsqbracket = 8
value rsqbracket = 9
value between = 10
value true_ = 11
value t_null = 12
value false_ = 13
value in_ = 14
value like = 15
value interval = 16
value regexp = 17
value escape = 18
value ident = 19
value lstring = 20
value lnum = 21
value dot = 22
value comma = 24
value eq = 25
value ne = 26
value gt = 27
value ge = 28
value lt = 29
value le = 30
value bitand = 31
value bitor = 32
value bitxor = 33
value lshift = 34
value rshift = 35
value plus = 36
value minus = 37
value mul = 38
value div = 39
value hex = 40
value bin = 41
value neg = 42
value bang = 43
value microsecond = 44
value second = 45
value minute = 46
value hour = 47
value day = 48
value week = 49
value month = 50
value quarter = 51
value year = 52
value placeholder = 53
value doublestar = 54
value mod_ = 55
value as_ = 56
value asc = 57
value desc = 58
value cast = 59
value character = 60
value set = 61
value charset = 62
value ascii = 63
value unicode = 64
value byte = 65
value binary = 66
value char = 67
value nchar = 68
value date = 69
value datetime = 70
value time = 71
value decimal = 72
value signed = 73
value unsigned = 74
value integer = 75
value linteger = 76
value dollar = 77
value json = 78
value colon = 79
value lcurly = 80
value rcurly = 81
value arrow = 82
value quote = 83

pub record Token : Type 0 where
  pub type : TokenType
  pub text : Bytes
  pub pos : ℕ

-- `Tokenizer::Maps::Maps`, the map `reserved_words`.
abbrev pub reserved_words : List (Bytes × TokenType)
reserved_words =
    (codes "and", and)
    ∷ (codes "or", or)
    ∷ (codes "xor", xor)
    ∷ (codes "is", is)
    ∷ (codes "not", not)
    ∷ (codes "like", like)
    ∷ (codes "in", in_)
    ∷ (codes "regexp", regexp)
    ∷ (codes "between", between)
    ∷ (codes "interval", interval)
    ∷ (codes "escape", escape)
    ∷ (codes "div", div)
    ∷ (codes "hex", hex)
    ∷ (codes "bin", bin)
    ∷ (codes "true", true_)
    ∷ (codes "false", false_)
    ∷ (codes "null", t_null)
    ∷ (codes "second", second)
    ∷ (codes "minute", minute)
    ∷ (codes "hour", hour)
    ∷ (codes "day", day)
    ∷ (codes "week", week)
    ∷ (codes "month", month)
    ∷ (codes "quarter", quarter)
    ∷ (codes "year", year)
    ∷ (codes "microsecond", microsecond)
    ∷ (codes "as", as_)
    ∷ (codes "asc", asc)
    ∷ (codes "desc", desc)
    ∷ (codes "cast", cast)
    ∷ (codes "character", character)
    ∷ (codes "set", set)
    ∷ (codes "charset", charset)
    ∷ (codes "ascii", ascii)
    ∷ (codes "unicode", unicode)
    ∷ (codes "byte", byte)
    ∷ (codes "binary", binary)
    ∷ (codes "char", char)
    ∷ (codes "nchar", nchar)
    ∷ (codes "date", date)
    ∷ (codes "datetime", datetime)
    ∷ (codes "time", time)
    ∷ (codes "decimal", decimal)
    ∷ (codes "signed", signed)
    ∷ (codes "unsigned", unsigned)
    ∷ (codes "integer", integer)
    ∷ (codes "int", integer)
    ∷ (codes "json", json)
    ∷ []

-- `reserved_words.find` under `Cmp_icase`.
unfoldable pub find_word : Bytes → List (Bytes × TokenType) → Option TokenType
unfolding iequals
find_word w [] = none
find_word w ((name, t) ∷ rest) = if iequals name w then some t else find_word w rest

unfoldable pub reserved_word : Bytes → Option TokenType
unfolding find_word
reserved_word w = find_word w reserved_words
