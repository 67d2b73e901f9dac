-- ===== src/Messages.antt =====
-- The Persian texts that the services send, by the numbers of their characters: the message of
-- services/settle.py, the bodies of REVIEW_TEMPLATES in services/review.py, and the digits and the
-- separator of web/format.py.
use Prim.Native.Char.{char}
use Prim.Native.String.{String, [], ◌∷◌}

-- "the transfer of", behind a tick
unfoldable pub verified_before_amount : String
verified_before_amount =
    char 9989 tt
    ∷ char 32 tt
    ∷ char 1608 tt
    ∷ char 1575 tt
    ∷ char 1585 tt
    ∷ char 1740 tt
    ∷ char 1586 tt
    ∷ char 32 tt
    ∷ []

-- "Toman of yours is confirmed. Order"
unfoldable pub verified_before_code : String
verified_before_code =
    char 32 tt
    ∷ char 1578 tt
    ∷ char 1608 tt
    ∷ char 1605 tt
    ∷ char 1575 tt
    ∷ char 1606 tt
    ∷ char 32 tt
    ∷ char 1588 tt
    ∷ char 1605 tt
    ∷ char 1575 tt
    ∷ char 32 tt
    ∷ char 1578 tt
    ∷ char 1575 tt
    ∷ char 1740 tt
    ∷ char 1740 tt
    ∷ char 1583 tt
    ∷ char 32 tt
    ∷ char 1588 tt
    ∷ char 1583 tt
    ∷ char 46 tt
    ∷ char 32 tt
    ∷ char 1587 tt
    ∷ char 1601 tt
    ∷ char 1575 tt
    ∷ char 1585 tt
    ∷ char 1588 tt
    ∷ char 32 tt
    ∷ []

-- "is being prepared."
unfoldable pub verified_end : String
verified_end =
    char 32 tt
    ∷ char 1583 tt
    ∷ char 1585 tt
    ∷ char 32 tt
    ∷ char 1581 tt
    ∷ char 1575 tt
    ∷ char 1604 tt
    ∷ char 32 tt
    ∷ char 1570 tt
    ∷ char 1605 tt
    ∷ char 1575 tt
    ∷ char 1583 tt
    ∷ char 1607 tt
    ∷ char 8204 tt
    ∷ char 1587 tt
    ∷ char 1575 tt
    ∷ char 1586 tt
    ∷ char 1740 tt
    ∷ char 32 tt
    ∷ char 1575 tt
    ∷ char 1587 tt
    ∷ char 1578 tt
    ∷ char 46 tt
    ∷ []

-- the body of the template
unfoldable pub contact_support_body : String
contact_support_body =
    char 1585 tt
    ∷ char 1587 tt
    ∷ char 1740 tt
    ∷ char 1583 tt
    ∷ char 32 tt
    ∷ char 1588 tt
    ∷ char 1605 tt
    ∷ char 1575 tt
    ∷ char 32 tt
    ∷ char 1585 tt
    ∷ char 1587 tt
    ∷ char 1740 tt
    ∷ char 1583 tt
    ∷ char 1607 tt
    ∷ char 32 tt
    ∷ char 1608 tt
    ∷ char 1604 tt
    ∷ char 1740 tt
    ∷ char 32 tt
    ∷ char 1608 tt
    ∷ char 1575 tt
    ∷ char 1585 tt
    ∷ char 1740 tt
    ∷ char 1586 tt
    ∷ char 32 tt
    ∷ char 1583 tt
    ∷ char 1585 tt
    ∷ char 32 tt
    ∷ char 1581 tt
    ∷ char 1587 tt
    ∷ char 1575 tt
    ∷ char 1576 tt
    ∷ char 32 tt
    ∷ char 1605 tt
    ∷ char 1575 tt
    ∷ char 32 tt
    ∷ char 1583 tt
    ∷ char 1740 tt
    ∷ char 1583 tt
    ∷ char 1607 tt
    ∷ char 32 tt
    ∷ char 1606 tt
    ∷ char 1588 tt
    ∷ char 1583 tt
    ∷ char 1563 tt
    ∷ char 32 tt
    ∷ char 1604 tt
    ∷ char 1591 tt
    ∷ char 1601 tt
    ∷ char 1575 tt
    ∷ char 1611 tt
    ∷ char 32 tt
    ∷ char 1576 tt
    ∷ char 1575 tt
    ∷ char 32 tt
    ∷ char 1662 tt
    ∷ char 1588 tt
    ∷ char 1578 tt
    ∷ char 1740 tt
    ∷ char 1576 tt
    ∷ char 1575 tt
    ∷ char 1606 tt
    ∷ char 1740 tt
    ∷ char 32 tt
    ∷ char 1578 tt
    ∷ char 1605 tt
    ∷ char 1575 tt
    ∷ char 1587 tt
    ∷ char 32 tt
    ∷ char 1576 tt
    ∷ char 1711 tt
    ∷ char 1740 tt
    ∷ char 1585 tt
    ∷ char 1740 tt
    ∷ char 1583 tt
    ∷ char 46 tt
    ∷ []

-- the body of the template
unfoldable pub receipt_unclear_body : String
receipt_unclear_body =
    char 1585 tt
    ∷ char 1587 tt
    ∷ char 1740 tt
    ∷ char 1583 tt
    ∷ char 32 tt
    ∷ char 1575 tt
    ∷ char 1585 tt
    ∷ char 1587 tt
    ∷ char 1575 tt
    ∷ char 1604 tt
    ∷ char 1740 tt
    ∷ char 32 tt
    ∷ char 1582 tt
    ∷ char 1608 tt
    ∷ char 1575 tt
    ∷ char 1606 tt
    ∷ char 1575 tt
    ∷ char 32 tt
    ∷ char 1606 tt
    ∷ char 1740 tt
    ∷ char 1587 tt
    ∷ char 1578 tt
    ∷ char 1563 tt
    ∷ char 32 tt
    ∷ char 1604 tt
    ∷ char 1591 tt
    ∷ char 1601 tt
    ∷ char 1575 tt
    ∷ char 1611 tt
    ∷ char 32 tt
    ∷ char 1578 tt
    ∷ char 1589 tt
    ∷ char 1608 tt
    ∷ char 1740 tt
    ∷ char 1585 tt
    ∷ char 32 tt
    ∷ char 1608 tt
    ∷ char 1575 tt
    ∷ char 1590 tt
    ∷ char 1581 tt
    ∷ char 8204 tt
    ∷ char 1578 tt
    ∷ char 1585 tt
    ∷ char 1740 tt
    ∷ char 32 tt
    ∷ char 1575 tt
    ∷ char 1586 tt
    ∷ char 32 tt
    ∷ char 1585 tt
    ∷ char 1587 tt
    ∷ char 1740 tt
    ∷ char 1583 tt
    ∷ char 32 tt
    ∷ char 1576 tt
    ∷ char 1601 tt
    ∷ char 1585 tt
    ∷ char 1587 tt
    ∷ char 1578 tt
    ∷ char 1740 tt
    ∷ char 1583 tt
    ∷ char 46 tt
    ∷ []

-- the body of the template
unfoldable pub amount_mismatch_body : String
amount_mismatch_body =
    char 1605 tt
    ∷ char 1576 tt
    ∷ char 1604 tt
    ∷ char 1594 tt
    ∷ char 32 tt
    ∷ char 1608 tt
    ∷ char 1575 tt
    ∷ char 1585 tt
    ∷ char 1740 tt
    ∷ char 1586 tt
    ∷ char 1740 tt
    ∷ char 32 tt
    ∷ char 1576 tt
    ∷ char 1575 tt
    ∷ char 32 tt
    ∷ char 1605 tt
    ∷ char 1576 tt
    ∷ char 1604 tt
    ∷ char 1594 tt
    ∷ char 32 tt
    ∷ char 1601 tt
    ∷ char 1575 tt
    ∷ char 1705 tt
    ∷ char 1578 tt
    ∷ char 1608 tt
    ∷ char 1585 tt
    ∷ char 32 tt
    ∷ char 1740 tt
    ∷ char 1705 tt
    ∷ char 1587 tt
    ∷ char 1575 tt
    ∷ char 1606 tt
    ∷ char 32 tt
    ∷ char 1606 tt
    ∷ char 1740 tt
    ∷ char 1587 tt
    ∷ char 1578 tt
    ∷ char 1563 tt
    ∷ char 32 tt
    ∷ char 1604 tt
    ∷ char 1591 tt
    ∷ char 1601 tt
    ∷ char 1575 tt
    ∷ char 1611 tt
    ∷ char 32 tt
    ∷ char 1576 tt
    ∷ char 1575 tt
    ∷ char 32 tt
    ∷ char 1662 tt
    ∷ char 1588 tt
    ∷ char 1578 tt
    ∷ char 1740 tt
    ∷ char 1576 tt
    ∷ char 1575 tt
    ∷ char 1606 tt
    ∷ char 1740 tt
    ∷ char 32 tt
    ∷ char 1578 tt
    ∷ char 1605 tt
    ∷ char 1575 tt
    ∷ char 1587 tt
    ∷ char 32 tt
    ∷ char 1576 tt
    ∷ char 1711 tt
    ∷ char 1740 tt
    ∷ char 1585 tt
    ∷ char 1740 tt
    ∷ char 1583 tt
    ∷ char 46 tt
    ∷ []

abbrev pub fa_zero : String
fa_zero = char 1776 tt ∷ []

abbrev pub fa_one : String
fa_one = char 1777 tt ∷ []

abbrev pub fa_two : String
fa_two = char 1778 tt ∷ []

abbrev pub fa_three : String
fa_three = char 1779 tt ∷ []

abbrev pub fa_four : String
fa_four = char 1780 tt ∷ []

abbrev pub fa_five : String
fa_five = char 1781 tt ∷ []

abbrev pub fa_six : String
fa_six = char 1782 tt ∷ []

abbrev pub fa_seven : String
fa_seven = char 1783 tt ∷ []

abbrev pub fa_eight : String
fa_eight = char 1784 tt ∷ []

abbrev pub fa_nine : String
fa_nine = char 1785 tt ∷ []

abbrev pub thousands : String
thousands = char 1644 tt ∷ []
