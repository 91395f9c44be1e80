-- ===== src/Domain/Currency/Table.antt =====
-- The constant `ISO_4217` of src/domain/money.rs.
use ledger_rs.Prelude.{List, [], ◌∷◌}
use ledger_rs.Prelude.Text.{Text, codes}

unfoldable pub iso_4217 : List Text
iso_4217 =
    codes "AED"
    ∷ codes "AFN"
    ∷ codes "ALL"
    ∷ codes "AMD"
    ∷ codes "ANG"
    ∷ codes "AOA"
    ∷ codes "ARS"
    ∷ codes "AUD"
    ∷ codes "AWG"
    ∷ codes "AZN"
    ∷ codes "BAM"
    ∷ codes "BBD"
    ∷ codes "BDT"
    ∷ codes "BGN"
    ∷ codes "BHD"
    ∷ codes "BIF"
    ∷ codes "BMD"
    ∷ codes "BND"
    ∷ codes "BOB"
    ∷ codes "BOV"
    ∷ codes "BRL"
    ∷ codes "BSD"
    ∷ codes "BTN"
    ∷ codes "BWP"
    ∷ codes "BYN"
    ∷ codes "BZD"
    ∷ codes "CAD"
    ∷ codes "CDF"
    ∷ codes "CHE"
    ∷ codes "CHF"
    ∷ codes "CHW"
    ∷ codes "CLF"
    ∷ codes "CLP"
    ∷ codes "CNY"
    ∷ codes "COP"
    ∷ codes "COU"
    ∷ codes "CRC"
    ∷ codes "CUP"
    ∷ codes "CVE"
    ∷ codes "CZK"
    ∷ codes "DJF"
    ∷ codes "DKK"
    ∷ codes "DOP"
    ∷ codes "DZD"
    ∷ codes "EGP"
    ∷ codes "ERN"
    ∷ codes "ETB"
    ∷ codes "EUR"
    ∷ codes "FJD"
    ∷ codes "FKP"
    ∷ codes "GBP"
    ∷ codes "GEL"
    ∷ codes "GHS"
    ∷ codes "GIP"
    ∷ codes "GMD"
    ∷ codes "GNF"
    ∷ codes "GTQ"
    ∷ codes "GYD"
    ∷ codes "HKD"
    ∷ codes "HNL"
    ∷ codes "HTG"
    ∷ codes "HUF"
    ∷ codes "IDR"
    ∷ codes "ILS"
    ∷ codes "INR"
    ∷ codes "IQD"
    ∷ codes "IRR"
    ∷ codes "ISK"
    ∷ codes "JMD"
    ∷ codes "JOD"
    ∷ codes "JPY"
    ∷ codes "KES"
    ∷ codes "KGS"
    ∷ codes "KHR"
    ∷ codes "KMF"
    ∷ codes "KPW"
    ∷ codes "KRW"
    ∷ codes "KWD"
    ∷ codes "KYD"
    ∷ codes "KZT"
    ∷ codes "LAK"
    ∷ codes "LBP"
    ∷ codes "LKR"
    ∷ codes "LRD"
    ∷ codes "LSL"
    ∷ codes "LYD"
    ∷ codes "MAD"
    ∷ codes "MDL"
    ∷ codes "MGA"
    ∷ codes "MKD"
    ∷ codes "MMK"
    ∷ codes "MNT"
    ∷ codes "MOP"
    ∷ codes "MRU"
    ∷ codes "MUR"
    ∷ codes "MVR"
    ∷ codes "MWK"
    ∷ codes "MXN"
    ∷ codes "MXV"
    ∷ codes "MYR"
    ∷ codes "MZN"
    ∷ codes "NAD"
    ∷ codes "NGN"
    ∷ codes "NIO"
    ∷ codes "NOK"
    ∷ codes "NPR"
    ∷ codes "NZD"
    ∷ codes "OMR"
    ∷ codes "PAB"
    ∷ codes "PEN"
    ∷ codes "PGK"
    ∷ codes "PHP"
    ∷ codes "PKR"
    ∷ codes "PLN"
    ∷ codes "PYG"
    ∷ codes "QAR"
    ∷ codes "RON"
    ∷ codes "RSD"
    ∷ codes "RUB"
    ∷ codes "RWF"
    ∷ codes "SAR"
    ∷ codes "SBD"
    ∷ codes "SCR"
    ∷ codes "SDG"
    ∷ codes "SEK"
    ∷ codes "SGD"
    ∷ codes "SHP"
    ∷ codes "SLE"
    ∷ codes "SOS"
    ∷ codes "SRD"
    ∷ codes "SSP"
    ∷ codes "STN"
    ∷ codes "SVC"
    ∷ codes "SYP"
    ∷ codes "SZL"
    ∷ codes "THB"
    ∷ codes "TJS"
    ∷ codes "TMT"
    ∷ codes "TND"
    ∷ codes "TOP"
    ∷ codes "TRY"
    ∷ codes "TTD"
    ∷ codes "TWD"
    ∷ codes "TZS"
    ∷ codes "UAH"
    ∷ codes "UGX"
    ∷ codes "USD"
    ∷ codes "USN"
    ∷ codes "UYI"
    ∷ codes "UYU"
    ∷ codes "UYW"
    ∷ codes "UZS"
    ∷ codes "VED"
    ∷ codes "VES"
    ∷ codes "VND"
    ∷ codes "VUV"
    ∷ codes "WST"
    ∷ codes "XAF"
    ∷ codes "XAG"
    ∷ codes "XAU"
    ∷ codes "XBA"
    ∷ codes "XBB"
    ∷ codes "XBC"
    ∷ codes "XBD"
    ∷ codes "XCD"
    ∷ codes "XCG"
    ∷ codes "XDR"
    ∷ codes "XOF"
    ∷ codes "XPD"
    ∷ codes "XPF"
    ∷ codes "XPT"
    ∷ codes "XSU"
    ∷ codes "XTS"
    ∷ codes "XUA"
    ∷ codes "XXX"
    ∷ codes "YER"
    ∷ codes "ZAR"
    ∷ codes "ZMW"
    ∷ codes "ZWG"
    ∷ []
